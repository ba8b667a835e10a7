-- ===== src/Core/Client/Order.antt =====
-- The order in which `client` calls the callbacks of its commands (sources/core/client.cpp).
use cpp_redis.Prelude.{
  ℕ, suc, ◌+◌, ◌-◌, List, [], ◌∷◌, ◌++◌, map, ◌≡◌, refl, ap, ◌∙◌, arith, length, none,
}
use cpp_redis.Reply.{Reply}
use cpp_redis.Core.Call.{ran, and_then}
use cpp_redis.Core.Client.{
  Client, CommandRequest, user, Event, reply_called, Ran, connection_receive_handler, run_front,
  run_callback, fail_all, fail_next, clear_callbacks, network_failure, Bytes,
}

-- A command whose callback is the user's.
abbrev pub request : List Bytes × ℕ → CommandRequest
request (words, k) = record { command = words; callback = user k }

-- Each callback with the reply that it is called with.
abbrev pub calls : List (List Bytes × ℕ) → List Reply → List Event
calls [] rs = []
calls (q ∷ qs) [] = []
calls (q ∷ qs) (r ∷ rs) = reply_called q.1 r ∷ calls qs rs

abbrev pub failures : List (List Bytes × ℕ) → List Event
failures [] = []
failures (q ∷ qs) = reply_called q.1 network_failure ∷ failures qs

pub uncounted : (n : ℕ) → n + 1 - 1 ≡ n
uncounted n = omega arith

counted_down : (m n : ℕ) → m + suc n - 1 ≡ m + n
counted_down m n = omega arith

added_zero : (n : ℕ) → n + 0 ≡ n
added_zero n = omega arith

length-request : (qs : List (List Bytes × ℕ)) → length (map request qs) ≡ length qs
length-request [] = refl
length-request (q ∷ qs) = ap suc (length-request qs)

module _ {S : Type 0} where
  -- The replies of a packet, one after the other.
  unfoldable pub receive_all : List Reply → Client S → Ran S
  unfolding connection_receive_handler
  receive_all [] c = ran c
  receive_all (r ∷ rs) c = and_then (connection_receive_handler r c) (receive_all rs)

  -- When as many replies come as there are commands of the user at the front of the queue, each
  -- callback is called once, with its reply and in the order of the commands; the commands behind
  -- stay, and nothing else changes.
  pub receive_all-calls :
      (qs : List (List Bytes × ℕ)) (rs : List Reply) (rest : List CommandRequest) (c : Client S)
      → length qs ≡ length rs
      → receive_all rs (record c { commands = map request qs ++ rest })
        ≡ record { state = record c { commands = rest }; events = calls qs rs; thrown = none }
  unfolding receive_all connection_receive_handler run_front run_callback
  receive_all-calls [] [] rest c h = refl
  receive_all-calls [] (r ∷ rs) rest c h = absurd (ground arith)
  receive_all-calls (q ∷ qs) [] rest c h = absurd (ground arith)
  receive_all-calls (q ∷ qs) (r ∷ rs) rest c h =
      let pending = map request qs ++ rest in
      ap (λ (next : Ran S). record next { events = reply_called q.1 r ∷ next.events })
        (ap (λ n. receive_all rs (record c { commands = pending; callbacks_running = n }))
            (uncounted c.callbacks_running)
          ∙ receive_all-calls qs rs rest c (omega (arith, h)))

  fail_all_lem :
      (qs : List (List Bytes × ℕ)) (n : ℕ) (c : Client S)
      → fail_all
          (map request qs)
          (record c { callbacks_running = n + length qs; failing = map request qs })
        ≡ record {
          state = record c { callbacks_running = n; failing = [] };
          events = failures qs;
          thrown = none;
        }
  unfolding fail_all fail_next run_callback
  fail_all_lem [] n c =
      ap (λ k. ran (record c { callbacks_running = k; failing = [] })) (added_zero n)
  fail_all_lem (q ∷ qs) n c =
      ap (λ (next : Ran S). record next { events = reply_called q.1 network_failure ∷ next.events })
        (ap
            (λ k.
              fail_all (map request qs)
                (record c { callbacks_running = k; failing = map request qs }))
            (counted_down n (length qs))
          ∙ fail_all_lem qs n c)

  -- Commands of the user that are cleared, with no other thread failing any, are failed by the rounds
  -- of the thread: each callback is called once, in order, with a "network failure" error, and when
  -- the thread is over no command is left and the count of running callbacks is what it was.
  pub fail_all-clear_callbacks :
      (qs : List (List Bytes × ℕ)) (c : Client S)
      → let cleared = clear_callbacks (record c { commands = map request qs; failing = [] }) in
        fail_all cleared.failing cleared ≡ record {
          state = record c { commands = []; failing = [] };
          events = failures qs;
          thrown = none;
        }
  unfolding clear_callbacks
  fail_all-clear_callbacks qs c =
      let failing = map request qs in
      ap
        (λ n. fail_all failing (record c {
          commands = [];
          callbacks_running = c.callbacks_running + n;
          failing = failing;
        }))
        (length-request qs)
      ∙ fail_all_lem qs c.callbacks_running (record c { commands = [] })
