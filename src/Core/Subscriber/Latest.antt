-- ===== src/Core/Subscriber/Latest.antt =====
-- What the maps of `subscriber` hold (sources/core/subscriber.cpp), against a description without maps:
-- the last request for a channel counts.
use cpp_redis.Prelude.{
  ℕ, Bool, Option, none, some, List, [], ◌∷◌, Bytes, bytes_eq, if◌then◌else◌, ◌≡◌, refl, sym, ap,
  ◌∙◌, arith, find, insert, erase, find-insert, find-erase, erase-find, insert-Sorted, erase-Sorted,
  Sorted,
}
use cpp_redis.Core.Subscriber.{
  Subscriber, Channels, CallbackHolder, Callback, subscribe, psubscribe, unsubscribe, punsubscribe,
  unsubscribed, punsubscribed, auth, unprotected_subscribe, unprotected_psubscribe, sent,
}

-- A callback that is not null, and an acknowledgement callback.
abbrev pub Subscription : Type 0
Subscription = ℕ × Option ℕ

abbrev pub holder : Subscription → CallbackHolder
holder p = record { subscribe_callback = some p.0; acknowledgement_callback = p.1 }

abbrev pub held : Option Subscription → Option CallbackHolder
held none = none
held (some p) = some (holder p)

-- The requests of a user.
pub data Request : Type 0 where
  subscribe_to psubscribe_to : Bytes → Subscription → Request
  unsubscribe_from punsubscribe_from : Bytes → Request
  authenticate : Bytes → Callback → Request

-- What a request is to one of the two maps.
pub data Change : Type 0 where
  set : Bytes → Subscription → Change
  remove : Bytes → Change
  nothing : Change

abbrev pub channel_change : Request → Change
channel_change (subscribe_to channel p) = set channel p
channel_change (unsubscribe_from channel) = remove channel
channel_change _ = nothing

abbrev pub pattern_change : Request → Change
pattern_change (psubscribe_to pattern_ p) = set pattern_ p
pattern_change (punsubscribe_from pattern_) = remove pattern_
pattern_change _ = nothing

abbrev pub changed : Bytes → Change → Option Subscription → Option Subscription
changed name (set k p) old = if bytes_eq name k then some p else old
changed name (remove k) old = if bytes_eq name k then none else old
changed name nothing old = old

-- What the last request that changes `name` leaves; `old` is what was there before.
abbrev pub latest :
    (Request → Change) → Bytes → List Request → Option Subscription → Option Subscription
latest change name [] old = old
latest change name (r ∷ rs) old = latest change name rs (changed name (change r) old)

abbrev apply : Change → Channels → Channels
apply (set k p) m = insert k (holder p) m
apply (remove k) m = erase k m
apply nothing m = m

apply-Sorted : (c : Change) (m : Channels) → Sorted m → Sorted (apply c m)
apply-Sorted (set k p) m h = insert-Sorted k (holder p) m h
apply-Sorted (remove k) m h = erase-Sorted k m h
apply-Sorted nothing m h = h

held_if :
    (b : Bool) (p q : Option Subscription)
    → held (if b then p else q) ≡ (if b then held p else held q)
held_if b p q = ground arith

find-apply :
    (name : Bytes) (c : Change) (m : Channels) (old : Option Subscription)
    → Sorted m
    → find name m ≡ held old
    → find name (apply c m) ≡ held (changed name c old)
find-apply name (set k p) m old s h =
    find-insert name k (holder p) m
    ∙ ap (λ r. if bytes_eq name k then some (holder p) else r) h
    ∙ sym (held_if (bytes_eq name k) (some p) old)
find-apply name (remove k) m old s h =
    find-erase name k m s
    ∙ ap (λ r. if bytes_eq name k then none else r) h
    ∙ sym (held_if (bytes_eq name k) none old)
find-apply name nothing m old s h = h

module _ {S : Type 0} where
  abbrev pub run : Request → Subscriber S → Subscriber S
  run (subscribe_to channel p) s = subscribe channel (some p.0) p.1 s
  run (psubscribe_to pattern_ p) s = psubscribe pattern_ (some p.0) p.1 s
  run (unsubscribe_from channel) s = unsubscribe channel s
  run (punsubscribe_from pattern_) s = punsubscribe pattern_ s
  run (authenticate password callback) s = auth password callback s

  abbrev pub run_all : List Request → Subscriber S → Subscriber S
  run_all [] s = s
  run_all (r ∷ rs) s = run_all rs (run r s)

  unsubscribed_lem :
      (channel : Bytes) (o : Option CallbackHolder) (s : Subscriber S)
      → find channel s.subscribed_channels ≡ o
      → (unsubscribed channel o s).subscribed_channels ≡ erase channel s.subscribed_channels
  unfolding unsubscribed sent
  unsubscribed_lem channel none s h = sym (erase-find channel s.subscribed_channels h)
  unsubscribed_lem channel (some holder) s h = refl

  unsubscribed_patterns :
      (channel : Bytes) (o : Option CallbackHolder) (s : Subscriber S)
      → (unsubscribed channel o s).psubscribed_channels ≡ s.psubscribed_channels
  unfolding unsubscribed sent
  unsubscribed_patterns channel none s = refl
  unsubscribed_patterns channel (some holder) s = refl

  punsubscribed_lem :
      (name : Bytes) (o : Option CallbackHolder) (s : Subscriber S)
      → find name s.psubscribed_channels ≡ o
      → (punsubscribed name o s).psubscribed_channels ≡ erase name s.psubscribed_channels
  unfolding punsubscribed sent
  punsubscribed_lem name none s h = sym (erase-find name s.psubscribed_channels h)
  punsubscribed_lem name (some holder) s h = refl

  punsubscribed_channels :
      (name : Bytes) (o : Option CallbackHolder) (s : Subscriber S)
      → (punsubscribed name o s).subscribed_channels ≡ s.subscribed_channels
  unfolding punsubscribed sent
  punsubscribed_channels name none s = refl
  punsubscribed_channels name (some holder) s = refl

  run_channels :
      (r : Request) (s : Subscriber S)
      → (run r s).subscribed_channels ≡ apply (channel_change r) s.subscribed_channels
  unfolding subscribe psubscribe unsubscribe punsubscribe auth unprotected_subscribe
      unprotected_psubscribe sent
  run_channels (subscribe_to channel p) s = refl
  run_channels (psubscribe_to name p) s = refl
  run_channels (unsubscribe_from channel) s =
      unsubscribed_lem channel (find channel s.subscribed_channels) s refl
  run_channels (punsubscribe_from name) s =
      punsubscribed_channels name (find name s.psubscribed_channels) s
  run_channels (authenticate password callback) s = refl

  run_patterns :
      (r : Request) (s : Subscriber S)
      → (run r s).psubscribed_channels ≡ apply (pattern_change r) s.psubscribed_channels
  unfolding subscribe psubscribe unsubscribe punsubscribe auth unprotected_subscribe
      unprotected_psubscribe sent
  run_patterns (subscribe_to channel p) s = refl
  run_patterns (psubscribe_to name p) s = refl
  run_patterns (unsubscribe_from channel) s =
      unsubscribed_patterns channel (find channel s.subscribed_channels) s
  run_patterns (punsubscribe_from name) s =
      punsubscribed_lem name (find name s.psubscribed_channels) s refl
  run_patterns (authenticate password callback) s = refl

  -- The maps of a subscriber refine the description, name by name.
  module _ (change : Request → Change) (channels : Subscriber S → Channels)
      (step : (r : Request) (s : Subscriber S)
        → channels (run r s) ≡ apply (change r) (channels s)) where
    find-latest :
        (name : Bytes) (rs : List Request) (s : Subscriber S) (old : Option Subscription)
        → Sorted (channels s)
        → find name (channels s) ≡ held old
        → find name (channels (run_all rs s)) ≡ held (latest change name rs old)
    find-latest name [] s old sorted h = h
    find-latest name (r ∷ rs) s old sorted h =
        find-latest name rs (run r s) (changed name (change r) old)
          (rw (step r s) (apply-Sorted (change r) (channels s) sorted))
          (ap (find name) (step r s) ∙ find-apply name (change r) (channels s) old sorted h)

  -- After any requests, the channels of a subscriber that had none hold for each name what the last
  -- request for that channel says: the callbacks of the last subscription, or nothing behind an
  -- unsubscription; and the patterns hold the same of the requests for patterns.
  pub run_all-latest :
      (rs : List Request) (name : Bytes) (s : Subscriber S)
      → s.subscribed_channels ≡ []
      → s.psubscribed_channels ≡ []
      → (find name (run_all rs s).subscribed_channels ≡ held (latest channel_change name rs none))
        × (find name (run_all rs s).psubscribed_channels
            ≡ held (latest pattern_change name rs none))
  unfolding find
  run_all-latest rs name s c p = (
    find-latest channel_change (λ t. t.subscribed_channels) run_channels name rs s none (rw c tt)
        (ap (find name) c),
    find-latest pattern_change (λ t. t.psubscribed_channels) run_patterns name rs s none (rw p tt)
        (ap (find name) p),
  )
