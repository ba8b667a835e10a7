-- ===== src/Core/Subscriber/Receiving.antt =====
-- What `subscriber` does with a reply (sources/core/subscriber.cpp): the `connection_receive_handler`
-- and the handlers that it calls.
use cpp_redis.Prelude.{
  ℕ, Bool, false, not, ◌||◌, ◌&&◌, Option, none, some, [], ◌∷◌, Bytes, codes, bytes_eq, ◌==◌, ℤ,
  if◌then◌else◌, find,
}
use cpp_redis.Error.{Exception, bad_function_call, thrown_of}
use cpp_redis.Reply.{
  Reply, Rows, nil, cons, size, row?, is_array, is_string, is_integer, as_array, as_string,
  as_integer,
}
use cpp_redis.Core.Call.{ran, failed, taken, and_then}
use cpp_redis.Core.Subscriber.{
  Subscriber, Ran, Channels, CallbackHolder, Callback, null, user, logs_ok, message,
  acknowledgement, auth_reply,
}

-- The callback of `re_auth` logs the text of a reply that is not "OK".
unfoldable pub log_reply : Reply → Option Exception
unfolding as_string
log_reply r = thrown_of (as_string r)

-- `array[2].is_…()`, behind the test of the size.
abbrev pub third : (Reply → Bool) → Rows → Bool
third test array = elim (row? array 2) [ none ↦ false | some r ↦ test r ]

module _ {S : Type 0} where
  -- The acknowledgement callback, where it is set.
  unfoldable pub acknowledge : ℤ → Option ℕ → Subscriber S → Ran S
  acknowledge nb_chans none s = ran s
  acknowledge nb_chans (some k) s = record {
    state = s;
    events = acknowledgement k nb_chans ∷ [];
    thrown = none;
  }

  unfoldable pub acknowledged : ℤ → Option CallbackHolder → Subscriber S → Ran S
  unfolding acknowledge
  acknowledged nb_chans none s = ran s
  acknowledged nb_chans (some holder) s = acknowledge nb_chans holder.acknowledgement_callback s

  unfoldable pub call_acknowledgement_callback : Bytes → Channels → ℤ → Subscriber S → Ran S
  unfolding acknowledged find
  call_acknowledgement_callback channel channels nb_chans s =
      acknowledged nb_chans (find channel channels) s

  -- The acknowledgement of a channel or of a pattern, by the title.
  unfoldable pub acknowledge_title : Bytes → Reply → Reply → Subscriber S → Ran S
  unfolding call_acknowledgement_callback as_string as_integer
  acknowledge_title title channel nb_chans s =
      let call = λ (channels : Channels). taken (as_string channel) s (λ name.
        taken (as_integer nb_chans) s (λ n. call_acknowledgement_callback name channels n s)) in
      if bytes_eq title (codes "subscribe")
      then call s.subscribed_channels
      else if bytes_eq title (codes "psubscribe")
      then call s.psubscribed_channels
      else ran s

  unfoldable pub handle_acknowledgement_reply : Rows → Subscriber S → Ran S
  unfolding acknowledge_title is_string is_integer
  handle_acknowledgement_reply (cons title (cons channel (cons nb_chans nil))) s =
      if not (is_string title) || (not (is_string channel) || not (is_integer nb_chans))
      then ran s
      else taken (as_string title) s (λ t. acknowledge_title t channel nb_chans s)
  handle_acknowledgement_reply _ s = ran s

  -- `it->second.subscribe_callback(channel, message)`: a null callback throws.
  unfoldable pub call_subscribe_callback : Bytes → Bytes → Option ℕ → Subscriber S → Ran S
  call_subscribe_callback channel text none s = failed s bad_function_call
  call_subscribe_callback channel text (some k) s = record {
    state = s;
    events = message k channel text ∷ [];
    thrown = none;
  }

  -- Behind the search.
  unfoldable pub deliver : Bytes → Bytes → Option CallbackHolder → Subscriber S → Ran S
  unfolding call_subscribe_callback
  deliver channel text none s = ran s
  deliver channel text (some holder) s =
      call_subscribe_callback channel text holder.subscribe_callback s

  -- The callback of `name`, on the channel and the message.
  unfoldable pub found : Reply → Reply → Reply → Channels → Subscriber S → Ran S
  unfolding deliver find as_string
  found name channel text channels s = taken (as_string name) s (λ k.
      taken (as_string channel) s
        (λ c. taken (as_string text) s (λ t. deliver c t (find k channels) s)))

  unfoldable pub handle_subscribe_reply : Rows → Subscriber S → Ran S
  unfolding found is_string as_string
  handle_subscribe_reply (cons title (cons channel (cons text nil))) s =
      if not (is_string title) || (not (is_string channel) || not (is_string text))
      then ran s
      else taken (as_string title) s (λ t.
        if not (bytes_eq t (codes "message"))
        then ran s
        else found channel channel text s.subscribed_channels s)
  handle_subscribe_reply _ s = ran s

  unfoldable pub handle_psubscribe_reply : Rows → Subscriber S → Ran S
  unfolding found is_string as_string
  handle_psubscribe_reply (cons title (cons pchannel (cons channel (cons text nil)))) s =
      if not (is_string title)
        || (not (is_string pchannel) || (not (is_string channel) || not (is_string text)))
      then ran s
      else taken (as_string title) s (λ t.
        if not (bytes_eq t (codes "pmessage"))
        then ran s
        else found pchannel channel text s.psubscribed_channels s)
  handle_psubscribe_reply _ s = ran s

  -- The callback of `auth` runs once.
  unfoldable pub auth_replied : Reply → Callback → Subscriber S → Ran S
  unfolding log_reply
  auth_replied r null s = ran s
  auth_replied r (user k) s = record {
    state = record s { auth_reply_callback = null };
    events = auth_reply k r ∷ [];
    thrown = none;
  }
  auth_replied r logs_ok s =
      and_then (record { state = s; events = []; thrown = log_reply r })
        (λ s'. ran (record s' { auth_reply_callback = null }))

  -- The choice by the size and the third row.
  unfoldable pub array_received : Rows → Subscriber S → Ran S
  unfolding handle_acknowledgement_reply handle_subscribe_reply handle_psubscribe_reply is_integer
      is_string
  array_received array s =
      if size array == 3 && third is_integer array
      then handle_acknowledgement_reply array s
      else if size array == 3 && third is_string array
      then handle_subscribe_reply array s
      else if size array == 4
      then handle_psubscribe_reply array s
      else ran s

  unfoldable pub connection_receive_handler : Reply → Subscriber S → Ran S
  unfolding auth_replied array_received is_array as_array
  connection_receive_handler r s =
      if not (is_array r)
      then auth_replied r s.auth_reply_callback s
      else taken (as_array r) s (λ array. array_received array s)
