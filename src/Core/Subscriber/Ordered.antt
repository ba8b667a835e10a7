-- ===== src/Core/Subscriber/Ordered.antt =====
-- The channels and the patterns of `subscriber` (sources/core/subscriber.cpp) stay in order under
-- unsubscriptions and in the handlers of replies.
use cpp_redis.Prelude.{
  not, ◌&&◌, ◌||◌, Option, none, some, [], Bytes, codes, bytes_eq, ◌==◌, Bool-cases, inl, inr, ℤ,
  erase-Sorted, find, if◌then◌else◌,
}
use cpp_redis.Reply.{
  Reply, Rows, nil, cons, size, is_array, is_string, is_integer, as_array, as_string, as_integer,
}
use cpp_redis.Core.Call.{ran, taken, and_then-keeps, taken-keeps}
use cpp_redis.Core.Subscriber.{
  Subscriber, Channels, CallbackHolder, Callback, null, user, logs_ok, unsubscribed, punsubscribed,
  sent,
}
use cpp_redis.Core.Subscriber.Receiving.{
  connection_receive_handler, array_received, handle_acknowledgement_reply, handle_subscribe_reply,
  handle_psubscribe_reply, acknowledge_title, call_acknowledgement_callback, acknowledged,
  acknowledge, found, deliver, call_subscribe_callback, auth_replied, third, log_reply,
}
use cpp_redis.Core.Subscriber.Resubscribing.{IsOrdered}

module _ {S : Type 0} where
  pub unsubscribed-IsOrdered :
      (channel : Bytes) (o : Option CallbackHolder) (s : Subscriber S)
      → IsOrdered s
      → IsOrdered (unsubscribed channel o s)
  unfolding unsubscribed sent
  unsubscribed-IsOrdered channel none s h = h
  unsubscribed-IsOrdered channel (some holder) s (hs, hp) =
      (erase-Sorted channel s.subscribed_channels hs, hp)

  pub punsubscribed-IsOrdered :
      (name : Bytes) (o : Option CallbackHolder) (s : Subscriber S)
      → IsOrdered s
      → IsOrdered (punsubscribed name o s)
  unfolding punsubscribed sent
  punsubscribed-IsOrdered name none s h = h
  punsubscribed-IsOrdered name (some holder) s (hs, hp) =
      (hs, erase-Sorted name s.psubscribed_channels hp)

  -- The handlers of replies: only the callback of `auth` may change.
  acknowledged-IsOrdered :
      (n : ℤ) (o : Option CallbackHolder) (s : Subscriber S)
      → IsOrdered s
      → IsOrdered (acknowledged n o s).state
  unfolding acknowledged acknowledge
  acknowledged-IsOrdered n none s h = h
  acknowledged-IsOrdered n (some holder) s h =
      elim holder.acknowledgement_callback as (λ o. IsOrdered (acknowledge n o s).state) [
        | none ↦ h
        | some k ↦ h
      ]

  deliver-IsOrdered :
      (channel text : Bytes) (o : Option CallbackHolder) (s : Subscriber S)
      → IsOrdered s
      → IsOrdered (deliver channel text o s).state
  unfolding deliver call_subscribe_callback
  deliver-IsOrdered channel text none s h = h
  deliver-IsOrdered channel text (some holder) s h =
      elim holder.subscribe_callback
        as (λ o. IsOrdered (call_subscribe_callback channel text o s).state) [
          | none ↦ h
          | some k ↦ h
        ]

  found-IsOrdered :
      (name channel text : Reply) (channels : Channels) (s : Subscriber S)
      → IsOrdered s
      → IsOrdered (found name channel text channels s).state
  unfolding found
  found-IsOrdered name channel text channels s h =
      taken-keeps IsOrdered (as_string name) s _ h (λ k.
        taken-keeps IsOrdered (as_string channel) s _ h (λ c.
          taken-keeps IsOrdered (as_string text) s _ h
            (λ t. deliver-IsOrdered c t (find k channels) s h)))

  auth_replied-IsOrdered :
      (r : Reply) (k : Callback) (s : Subscriber S)
      → IsOrdered s
      → IsOrdered (auth_replied r k s).state
  unfolding auth_replied
  auth_replied-IsOrdered r null s h = h
  auth_replied-IsOrdered r (user k) s h = h
  auth_replied-IsOrdered r logs_ok s h =
      and_then-keeps IsOrdered (record { state = s; events = []; thrown = log_reply r })
        (λ t. ran (record t { auth_reply_callback = null })) h (λ t k. k)

  titled-IsOrdered :
      (channel n : Reply) (channels : Channels) (s : Subscriber S)
      → IsOrdered s
      → IsOrdered
          (taken (as_string channel) s (λ name.
            taken (as_integer n) s (λ k. call_acknowledgement_callback name channels k s))).state
  unfolding call_acknowledgement_callback
  titled-IsOrdered channel n channels s h = taken-keeps IsOrdered (as_string channel) s _ h (λ name.
      taken-keeps IsOrdered (as_integer n) s _ h
        (λ k. acknowledged-IsOrdered k (find name channels) s h))

  acknowledge_title-IsOrdered :
      (title : Bytes) (channel n : Reply) (s : Subscriber S)
      → IsOrdered s
      → IsOrdered (acknowledge_title title channel n s).state
  unfolding acknowledge_title
  acknowledge_title-IsOrdered title channel n s h =
      elim (Bool-cases (bytes_eq title (codes "subscribe"))) [
        | inl e ↦ rw e (titled-IsOrdered channel n s.subscribed_channels s h)
        | inr e ↦ elim (Bool-cases (bytes_eq title (codes "psubscribe"))) [
          | inl e' ↦ rw (e, e') (titled-IsOrdered channel n s.psubscribed_channels s h)
          | inr e' ↦ rw (e, e') h
        ]
      ]

  handle_acknowledgement_reply-IsOrdered :
      (array : Rows) (s : Subscriber S)
      → IsOrdered s
      → IsOrdered (handle_acknowledgement_reply array s).state
  unfolding handle_acknowledgement_reply
  handle_acknowledgement_reply-IsOrdered (cons title (cons channel (cons n nil))) s h =
      let strings = not (is_string title) || (not (is_string channel) || not (is_integer n)) in
      elim (Bool-cases strings) [
        | inl e ↦ rw e h
        | inr e ↦ rw e (
            taken-keeps IsOrdered (as_string title) s _ h
              (λ t. acknowledge_title-IsOrdered t channel n s h))
      ]
  handle_acknowledgement_reply-IsOrdered _ s h = h

  -- A message, where the title is the word for it.
  pushed-IsOrdered :
      (word : Bytes) (title name channel text : Reply) (channels : Channels) (s : Subscriber S)
      → IsOrdered s
      → IsOrdered
          (taken (as_string title) s (λ t.
            if not (bytes_eq t word) then ran s else found name channel text channels s)).state
  pushed-IsOrdered word title name channel text channels s h =
      taken-keeps IsOrdered (as_string title) s _ h (λ t.
        elim (Bool-cases (not (bytes_eq t word))) [
          | inl e ↦ rw e h
          | inr e ↦ rw e (found-IsOrdered name channel text channels s h)
        ])

  handle_subscribe_reply-IsOrdered :
      (array : Rows) (s : Subscriber S)
      → IsOrdered s
      → IsOrdered (handle_subscribe_reply array s).state
  unfolding handle_subscribe_reply
  handle_subscribe_reply-IsOrdered (cons title (cons channel (cons text nil))) s h =
      let strings = not (is_string title) || (not (is_string channel) || not (is_string text)) in
      elim (Bool-cases strings) [
        | inl e ↦ rw e h
        | inr e ↦ rw e (
            pushed-IsOrdered (codes "message") title channel channel text s.subscribed_channels s h)
      ]
  handle_subscribe_reply-IsOrdered _ s h = h

  handle_psubscribe_reply-IsOrdered :
      (array : Rows) (s : Subscriber S)
      → IsOrdered s
      → IsOrdered (handle_psubscribe_reply array s).state
  unfolding handle_psubscribe_reply
  handle_psubscribe_reply-IsOrdered (cons title (cons name (cons channel (cons text nil)))) s h =
      let strings =
        not (is_string title)
        || (not (is_string name) || (not (is_string channel) || not (is_string text))) in
      elim (Bool-cases strings) [
        | inl e ↦ rw e h
        | inr e ↦
            rw e (
              pushed-IsOrdered (codes "pmessage") title name channel text s.psubscribed_channels s
                h)
      ]
  handle_psubscribe_reply-IsOrdered _ s h = h

  array_received-IsOrdered :
      (array : Rows) (s : Subscriber S) → IsOrdered s → IsOrdered (array_received array s).state
  unfolding array_received
  array_received-IsOrdered array s h =
      elim (Bool-cases (size array == 3 && third is_integer array)) [
        | inl e ↦ rw e (handle_acknowledgement_reply-IsOrdered array s h)
        | inr e ↦ elim (Bool-cases (size array == 3 && third is_string array)) [
          | inl e' ↦ rw (e, e') (handle_subscribe_reply-IsOrdered array s h)
          | inr e' ↦ elim (Bool-cases (size array == 4)) [
            | inl e'' ↦ rw (e, e', e'') (handle_psubscribe_reply-IsOrdered array s h)
            | inr e'' ↦ rw (e, e', e'') h
          ]
        ]
      ]

  pub connection_receive_handler-IsOrdered :
      (r : Reply) (s : Subscriber S)
      → IsOrdered s
      → IsOrdered (connection_receive_handler r s).state
  unfolding connection_receive_handler
  connection_receive_handler-IsOrdered r s h = elim (Bool-cases (not (is_array r))) [
    | inl e ↦ rw e (auth_replied-IsOrdered r s.auth_reply_callback s h)
    | inr e ↦
        rw e
          (taken-keeps IsOrdered (as_array r) s _ h (λ array. array_received-IsOrdered array s h))
  ]
