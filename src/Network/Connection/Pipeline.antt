-- ===== src/Network/Connection/Pipeline.antt =====
-- Pipelining: commands are kept in the send buffer, and one commit writes them all.
use cpp_redis.Prelude.{
  List, [], ◌∷◌, ◌++◌, append_assoc, append-nil, ◌≡◌, ◌∙◌, sym, ap, Bytes, none,
}
use cpp_redis.Protocol.{
  Values, no_items, item, bodies, body, body-append, encode, replies_of, AreValid,
}
use cpp_redis.Builders.ReplyBuilder.{receive}
use cpp_redis.Builders.ReplyBuilder.RoundTrip.{between, receive-encode}
use cpp_redis.Network.TcpClient.{TcpClient}
use cpp_redis.Network.Command.{
  build_command, build_command-encode, command_value, IsCommand, command_value-IsValid,
}
use cpp_redis.Network.Connection.{Connection, send, commit, rethrown}

-- A command's bytes are those of its value.
abbrev pub values_of : List (List Bytes) → Values
values_of [] = no_items
values_of (cmd ∷ cmds) = item (command_value cmd) (values_of cmds)

abbrev pub AreCommands : List (List Bytes) → Type 0
AreCommands [] = Unit
AreCommands (cmd ∷ cmds) = IsCommand cmd × AreCommands cmds

values_of-AreValid : (cmds : List (List Bytes)) → AreCommands cmds → AreValid (values_of cmds)
values_of-AreValid [] h = tt
values_of-AreValid (cmd ∷ cmds) (h, hs) = (command_value-IsValid cmd h, values_of-AreValid cmds hs)

pub encode-cons :
    (cmd : List Bytes) (cmds : List (List Bytes))
    → encode (values_of (cmd ∷ cmds)) ≡ build_command cmd ++ encode (values_of cmds)
unfolding encode body
encode-cons cmd cmds = rw (build_command-encode cmd) (
    ap (λ (xs : Bytes). b'*' ∷ xs)
      (body-append (command_value cmd) [] (bodies (values_of cmds) [])))

module _ {S : Type 0} where
  abbrev pub send_all : Connection S → List (List Bytes) → Connection S
  send_all c [] = c
  send_all c (cmd ∷ cmds) = send_all (send c cmd) cmds

  -- Sent commands stand in the send buffer behind what was there, in order, each in its protocol form;
  -- nothing else of the connection changes.
  pub send_all_lem :
      (cmds : List (List Bytes)) (c : Connection S)
      → send_all c cmds ≡ record c { buffer = c.buffer ++ encode (values_of cmds) }
  unfolding send encode body
  send_all_lem [] c = ap (λ (b : Bytes). record c { buffer = b }) (sym (append-nil c.buffer))
  send_all_lem (cmd ∷ cmds) c =
      send_all_lem cmds (send c cmd)
      ∙ ap (λ (b : Bytes). record c { buffer = b })
          (append_assoc c.buffer (build_command cmd) (encode (values_of cmds))
            ∙ ap (λ (b : Bytes). c.buffer ++ b) (sym (encode-cons cmd cmds)))

  -- One commit behind any commands sent on an empty buffer writes bytes that the protocol's reader
  -- reads as those commands, each an array of its strings, in order and with none missing. The buffer
  -- is empty behind it and the write's failure is thrown on as a `redis_error`.
  pub commit-send_all :
      (T : TcpClient S) (c : Connection S) (cmds : List (List Bytes))
      → c.buffer ≡ []
      → AreCommands cmds
      → (written : Bytes) × ((commit T (send_all c cmds)).connection
          ≡ record c { client = (T.async_write written c.client).socket; buffer = [] })
        × ((commit T (send_all c cmds)).thrown ≡ rethrown (T.async_write written c.client).failure)
        × (receive (between [] []) written
            ≡ record { state = between (replies_of (values_of cmds)) []; thrown = none })
  unfolding commit
  commit-send_all T c cmds e h =
      let sent =
        send_all_lem cmds c
        ∙ ap (λ (b : Bytes). record c { buffer = b ++ encode (values_of cmds) }) e in
      (
        encode (values_of cmds),
        rw sent,
        rw sent,
        receive-encode (values_of cmds) [] (values_of-AreValid cmds h),
      )
