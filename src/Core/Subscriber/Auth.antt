-- ===== src/Core/Subscriber/Auth.antt =====
-- The callback of `subscriber::auth` (sources/core/subscriber.cpp).
use cpp_redis.Prelude.{ℕ, false, none, List, [], ◌∷◌, map, Bytes, ◌≡◌, refl, ap}
use cpp_redis.Reply.{Reply, is_array}
use cpp_redis.Network.TcpClient.{TcpClient}
use cpp_redis.Network.Connection
use cpp_redis.Core.Call.{ran}
use cpp_redis.Core.Retries.{Meanwhile}
use cpp_redis.Core.Subscriber.{Subscriber, Ran, null, user, auth, sent, auth_reply}
use cpp_redis.Core.Subscriber.Receiving.{connection_receive_handler, auth_replied}
use cpp_redis.Core.Subscriber.ComingIn.{handle, handle_all}

-- No reply is an array.
abbrev pub ArePlain : List Reply → Type 0
ArePlain [] = Unit
ArePlain (r ∷ rs) = (is_array r ≡ false) × ArePlain rs

abbrev replied : {S : Type 0} → Subscriber S → Subscriber S
replied s = record s { auth_reply_callback = null }

module _ {S : Type 0} (T : TcpClient S) (f : ℕ) (meanwhile : ℕ → Meanwhile) where
  -- With no callback, replies that are no arrays are passed over.
  silent_lem :
      (rs : List Reply) (s : Subscriber S)
      → ArePlain rs
      → handle_all T f meanwhile (map Connection.reply_callback rs) (replied s) ≡ ran (replied s)
  unfolding handle_all handle connection_receive_handler auth_replied
  silent_lem [] s plain = refl
  silent_lem (r ∷ rs) s (plain, rest) = rw plain (silent_lem rs s rest)

  -- After `auth`, the callback gets the next reply that is no array, once: the replies behind it that
  -- are no arrays call nothing.
  pub handle_all-auth :
      (password : Bytes) (k : ℕ) (r : Reply) (rs : List Reply) (s : Subscriber S)
      → ArePlain (r ∷ rs)
      → let t = auth password (user k) s in
        handle_all T f meanwhile (map Connection.reply_callback (r ∷ rs)) t ≡ record {
          state = record t { auth_reply_callback = null };
          events = auth_reply k r ∷ [];
          thrown = none;
        }
  unfolding handle_all handle connection_receive_handler auth_replied auth sent
  handle_all-auth password k r rs s (plain, rest) =
      let t = auth password (user k) s in
      rw plain
        (ap (λ (n : Ran S). record n { events = auth_reply k r ∷ n.events }) (silent_lem rs t rest))
