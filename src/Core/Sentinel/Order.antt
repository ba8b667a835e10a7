-- ===== src/Core/Sentinel/Order.antt =====
-- The order in which `sentinel` calls the callbacks of its commands (sources/core/sentinel.cpp).
use cpp_redis.Prelude.{
  ℕ, ◌+◌, ◌-◌, List, [], ◌∷◌, ◌++◌, map, ◌≡◌, refl, ap, ◌∙◌, arith, length, none,
}
use cpp_redis.Network.Connection
use cpp_redis.Core.Sentinel.{
  Sentinel, Ran, Callback, user, Event, reply_callback, handle_all, handle,
  connection_receive_handler, run_front, run_callback,
}
use cpp_redis.Reply.{Reply}

-- Each callback with the reply that it is called with.
abbrev pub calls : List ℕ → List Reply → List Event
calls (k ∷ ks) (r ∷ rs) = reply_callback k r ∷ calls ks rs
calls [] rs = []
calls (k ∷ ks) [] = []

uncounted : (n : ℕ) → n + 1 - 1 ≡ n
uncounted n = omega arith

module _ {S : Type 0} where
  -- When as many replies come as there are callbacks at the front of the queue, each callback is
  -- called once, with its reply and in the order of the commands; the callbacks behind stay, and
  -- nothing else changes.
  pub handle_all-calls :
      (ks : List ℕ) (rs : List Reply) (rest : List Callback) (s : Sentinel S)
      → length ks ≡ length rs
      → handle_all (map Connection.reply_callback rs) (record s { callbacks = map user ks ++ rest })
        ≡ record { state = record s { callbacks = rest }; events = calls ks rs; thrown = none }
  unfolding handle_all handle connection_receive_handler run_front run_callback
  handle_all-calls [] [] rest s h = refl
  handle_all-calls [] (r ∷ rs) rest s h = absurd (ground arith)
  handle_all-calls (k ∷ ks) [] rest s h = absurd (ground arith)
  handle_all-calls (k ∷ ks) (r ∷ rs) rest s h =
      let pending = map user ks ++ rest in
      ap (λ (next : Ran S). record next { events = reply_callback k r ∷ next.events })
        (ap
            (λ n.
              handle_all (map Connection.reply_callback rs)
                (record s { callbacks = pending; callbacks_running = n }))
            (uncounted s.callbacks_running)
          ∙ handle_all-calls ks rs rest s (omega (arith, h)))
