-- ===== src/Core/Client/Promises.antt =====
-- What the futures of `client` get (sources/core/client.cpp).
use cpp_redis.Prelude.{ℕ, List, [], ◌∷◌, ◌++◌, map, ◌≡◌, ap, ◌∙◌, arith, length, none}
use cpp_redis.Reply.{Reply}
use cpp_redis.Network.Connection
use cpp_redis.Core.Client.{
  Client, CommandRequest, Callback, Ran, Bytes, sets_promise, promise_set, reply_called, send,
  unprotected_send, connection_receive_handler, run_front, run_callback,
}
use cpp_redis.Core.Client.Order.{request, calls, receive_all, uncounted}
use cpp_redis.Core.Client.Futures.{exec_cmd}

-- A command whose callback sets a promise.
abbrev pub promised : List Bytes → ℕ → CommandRequest
promised words k = record { command = words; callback = sets_promise k }

module _ {S : Type 0} where
  answered_lem :
      (qs : List (List Bytes × ℕ)) (rs : List Reply) (words : List Bytes) (k : ℕ) (r : Reply)
      (c : Client S)
      → length qs ≡ length rs
      → receive_all (rs ++ r ∷ []) (record c { commands = map request qs ++ promised words k ∷ [] })
        ≡ record {
          state = record c { commands = [] };
          events = calls qs rs ++ promise_set k r ∷ [];
          thrown = none;
        }
  unfolding receive_all connection_receive_handler run_front run_callback
  answered_lem [] [] words k r c h =
      ap
        (λ n. record {
          state = record c { commands = []; callbacks_running = n };
          events = promise_set k r ∷ [];
          thrown = none;
        })
        (uncounted c.callbacks_running)
  answered_lem [] (t ∷ rs) words k r c h = absurd (ground arith)
  answered_lem (q ∷ qs) [] words k r c h = absurd (ground arith)
  answered_lem (q ∷ qs) (t ∷ rs) words k r c h =
      let pending = map request qs ++ promised words k ∷ [] in
      ap (λ (next : Ran S). record next { events = reply_called q.1 t ∷ next.events })
        (ap
            (λ n.
              receive_all (rs ++ r ∷ []) (record c { commands = pending; callbacks_running = n }))
            (uncounted c.callbacks_running)
          ∙ answered_lem qs rs words k r c (omega (arith, h)))

  -- A command that sends some words with its callback is given to `exec_cmd` while commands of the
  -- user wait. When these are answered and one more reply comes, their callbacks are called with
  -- their replies, in order, and then the promise behind the future is set once, to that reply. No
  -- command is left; what was sent is the same as with a callback.
  pub exec_cmd-receive_all :
      (f : Callback → Client S → Client S) (words : List Bytes) (prms : ℕ)
      (qs : List (List Bytes × ℕ)) (rs : List Reply) (r : Reply) (c : Client S)
      → ((callback : Callback) (d : Client S) → f callback d ≡ send words callback d)
      → length qs ≡ length rs
      → let (t, future) = exec_cmd f prms (record c { commands = map request qs }) in
        receive_all (rs ++ r ∷ []) t ≡ record {
          state = record c { client = Connection.send c.client words; commands = [] };
          events = calls qs rs ++ promise_set future r ∷ [];
          thrown = none;
        }
  unfolding send unprotected_send
  exec_cmd-receive_all f words prms qs rs r c same h =
      ap (receive_all (rs ++ r ∷ []))
        (same (sets_promise prms) (record c { commands = map request qs }))
      ∙ answered_lem qs rs words prms r (record c { client = Connection.send c.client words }) h
