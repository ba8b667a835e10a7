-- ===== src/Core/Client/Waiting/Timed.antt =====
-- The two forms of `client::sync_commit` (includes/cpp_redis/core/client.hpp,
-- sources/core/client.cpp): with a timeout and without.
use cpp_redis.Prelude.{
  ℕ, Bool, true, false, some, none, List, [], ◌∷◌, ◌≡◌, refl, arith, if◌then◌else◌,
}
use cpp_redis.Error.{never_returns}
use cpp_redis.Network.TcpClient.{TcpClient}
use cpp_redis.Core.Call.{ran, failed, and_then, on_its_thread, and_then-returns}
use cpp_redis.Core.Retries.{Meanwhile}
use cpp_redis.Core.Client.{Client, Ran}
use cpp_redis.Core.Client.Reconnecting.{commit}
use cpp_redis.Core.Client.Waiting.{
  Incoming, is_idle, come_in, wait, wait_for, sync_commit, sync_commit_for,
}

module _ {S : Type 0} (T : TcpClient S) (f : ℕ) (meanwhile : ℕ → Meanwhile) where
  tested_lem :
      (idle : Bool) (c : Client S) (next timed : Ran S)
      → (next.thrown ≡ none → timed ≡ next)
      → (if idle then ran c else next).thrown ≡ none
      → (if idle then ran c else timed) ≡ (if idle then ran c else next)
  tested_lem true c next timed same over = refl
  tested_lem false c next timed same over = same over

  idle_lem :
      (idle : Bool) (c : Client S) (stuck : Ran S)
      → stuck.thrown ≡ some never_returns
      → (if idle then ran c else stuck).thrown ≡ none
      → ran c ≡ (if idle then ran c else stuck)
  idle_lem true c stuck e over = refl
  idle_lem false c stuck e over = absurd (ground (arith, e, over))

  wait_for-wait :
      (incoming : List Incoming) (c : Client S)
      → (wait T f meanwhile incoming c).thrown ≡ none
      → wait_for T f meanwhile incoming c ≡ wait T f meanwhile incoming c
  unfolding wait wait_for
  wait_for-wait [] c = idle_lem (is_idle c) c (failed c never_returns) refl
  wait_for-wait (i ∷ incoming) c =
      tested_lem (is_idle c) c
        (and_then (on_its_thread (come_in T f meanwhile i c)) (wait T f meanwhile incoming))
        (and_then (on_its_thread (come_in T f meanwhile i c)) (wait_for T f meanwhile incoming))
        (and_then-returns (on_its_thread (come_in T f meanwhile i c)) (wait T f meanwhile incoming)
          (wait_for T f meanwhile incoming) (wait_for-wait incoming))

  -- Where `sync_commit` returns on what comes in, `sync_commit` with a timeout that lets the same come
  -- in leaves the same client, calls the same callbacks and returns.
  pub sync_commit_for-sync_commit :
      (incoming : List Incoming) (c : Client S)
      → (sync_commit T f meanwhile incoming c).thrown ≡ none
      → sync_commit_for T f meanwhile incoming c ≡ sync_commit T f meanwhile incoming c
  unfolding sync_commit sync_commit_for
  sync_commit_for-sync_commit incoming c =
      and_then-returns (commit T c) (wait T f meanwhile incoming) (wait_for T f meanwhile incoming)
        (wait_for-wait incoming)
