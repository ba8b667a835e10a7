-- ===== src/Examples/Runs.antt =====
-- A run of the client on a concrete socket.
use cpp_redis.Prelude.{◌≡◌, refl, codes, [], ◌∷◌, List, true, none, pos, ℕ, false}
use cpp_redis.Network.Connection
use cpp_redis.Core.Retries.{Meanwhile}
use cpp_redis.Core.Client.{
  Client, client, add_sentinel, send, unprotected_send, user, clear_callbacks, fail_next,
  run_callback,
}
use cpp_redis.Core.Client.Reconnecting.{
  connect, connect_done, disconnect, commit, try_commit, commit_done,
}
use cpp_redis.Core.Client.Waiting.{
  Incoming, thread_round, come_in, wait, sync_commit, sync_commit_for,
}
use cpp_redis.Core.Client.Waiting.Timed.{sync_commit_for-sync_commit}
use cpp_redis.Core.Client.Counted.{IsCounted}
use cpp_redis.Core.Client.Steps.{
  Reach, begin, later, adds_sentinel, connects, sends, disconnects, Reach-IsCounted, IsDone,
  sync_commit-IsDone,
}
use cpp_redis.Examples.Socket.{Socket, loopback, closed}

-- A client that knows a sentinel, connects, asks for two things, and is disconnected.
abbrev cut_off : Client Socket
cut_off = disconnect loopback true (
    send (codes "PING" ∷ []) (user 2) (
      send (codes "GET" ∷ codes "a" ∷ []) (user 1)
        (connect loopback (codes "localhost") 6379 true 0 (pos 0) 0
          (add_sentinel (codes "localhost") 26379 0 (client closed closed))).state))

cut_off-Reach : Reach loopback closed closed cut_off
cut_off-Reach =
    later
      (later
        (later
          (later (later begin (adds_sentinel (codes "localhost") 26379 0))
            (connects (codes "localhost") 6379 true 0 (pos 0) 0))
          (sends (codes "GET" ∷ codes "a" ∷ []) (user 1)))
        (sends (codes "PING" ∷ []) (user 2)))
      (disconnects true)

Reach-IsCounted_example : IsCounted cut_off
Reach-IsCounted_example = Reach-IsCounted loopback closed closed cut_off cut_off-Reach

abbrev idle : ℕ → Meanwhile
idle n = record { cancelled = false; incoming = [] }

-- The thread fails both commands while `sync_commit` waits.
abbrev rounds : List Incoming
rounds = thread_round ∷ thread_round ∷ []

returned : (sync_commit loopback 0 idle rounds cut_off).thrown ≡ none
unfolding sync_commit wait come_in commit try_commit commit_done fail_next run_callback disconnect
    clear_callbacks send unprotected_send connect connect_done Connection.connect Connection.commit
    Connection.send Connection.disconnect add_sentinel
returned = refl

sync_commit-IsDone_example : IsDone (sync_commit loopback 0 idle rounds cut_off).state
sync_commit-IsDone_example =
    sync_commit-IsDone loopback closed closed 0 idle rounds cut_off cut_off-Reach returned

sync_commit_for-sync_commit_example :
    sync_commit_for loopback 0 idle rounds cut_off ≡ sync_commit loopback 0 idle rounds cut_off
sync_commit_for-sync_commit_example =
    sync_commit_for-sync_commit loopback 0 idle rounds cut_off returned
