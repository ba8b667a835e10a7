-- ===== src/Core/Client/Resending.antt =====
-- The commands that `client` sends again after a reconnection (sources/core/client.cpp).
use cpp_redis.Prelude.{List, [], ◌∷◌, ◌++◌, append_assoc, append-nil, ◌≡◌, sym, ap, ◌∙◌, Bytes}
use cpp_redis.Network.Connection
use cpp_redis.Network.Command.{build_command}
use cpp_redis.Core.Client.{
  is_empty, not_selected, re_auth, re_select, unprotected_auth, logs_ok, Client, CommandRequest,
  unprotected_send, resend, resend_failed_commands, false, true, codes,
}

-- What requests are on the wire.
abbrev pub wire : List CommandRequest → Bytes
wire [] = []
wire (request ∷ rest) = build_command request.command ++ wire rest

module _ {S : Type 0} where
  abbrev queued : Client S → Bytes → List CommandRequest → Client S
  queued c buffer commands = record c {
    client = record c.client { buffer = buffer };
    commands = commands;
  }

  same_queue :
      (c : Client S) (b b' : Bytes) (q q' : List CommandRequest)
      → b ≡ b'
      → q ≡ q'
      → queued c b q ≡ queued c b' q'
  same_queue c b b' q q' hb hq = ap (λ x. queued c x q) hb ∙ ap (λ y. queued c b' y) hq

  resend_lem :
      (requests : List CommandRequest) (c : Client S)
      → resend requests c ≡ record c {
        client = record c.client { buffer = c.client.buffer ++ wire requests };
        commands = c.commands ++ requests;
      }
  unfolding resend unprotected_send Connection.send
  resend_lem [] c =
      same_queue c _ _ _ _ (sym (append-nil c.client.buffer)) (sym (append-nil c.commands))
  resend_lem (request ∷ rest) c =
      resend_lem rest (unprotected_send request.command request.callback c)
      ∙ same_queue c _ _ _ _
          (append_assoc c.client.buffer (build_command request.command) (wire rest))
          (append_assoc c.commands (request ∷ []) rest)

  -- The commands that wait are written to the buffer again, behind what it holds and in their order,
  -- and wait in the same order; nothing else changes.
  pub resend_failed_commands_lem :
      (c : Client S)
      → resend_failed_commands c
        ≡ record c { client = record c.client { buffer = c.client.buffer ++ wire c.commands } }
  unfolding resend_failed_commands
  resend_failed_commands_lem c = resend_lem c.commands (record c { commands = [] })

  -- With a password and no database, what a reconnected client writes is `AUTH` twice: once in front
  -- of the commands that wait, and once behind them; and only one `AUTH` waits for an answer, behind
  -- them.
  pub resend-re_auth :
      (c : Client S)
      → is_empty c.password ≡ false
      → not_selected c.database_index ≡ true
      → let auth = codes "AUTH" ∷ c.password ∷ [] in
        resend_failed_commands (re_select (re_auth c)) ≡ record c {
          client = record c.client {
            buffer =
                c.client.buffer
                ++ build_command auth
                ++ wire (c.commands ++ record { command = auth; callback = logs_ok } ∷ []);
          };
          commands = c.commands ++ record { command = auth; callback = logs_ok } ∷ [];
        }
  unfolding re_auth re_select unprotected_auth unprotected_send Connection.send
  resend-re_auth c protected unselected =
      rw (protected, unselected)
        (resend_failed_commands_lem (unprotected_auth c.password logs_ok c))
