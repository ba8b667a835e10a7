-- ===== src/Core/Call.antt =====
-- What a call of a stateful object leaves: the object, the calls of the user's callbacks, and the
-- exception. The classes of sources/core are modelled by such calls.
use cpp_redis.Prelude.{
  Option, none, some, true, false, if◌then◌else◌, List, [], ◌++◌, ◌≡◌, refl, ap, arith,
}
use cpp_redis.Error.{Exception, Result, ok, throw, is_caught}

pub record Call (X E : Type 0) : Type 0 where
  pub state : X
  pub events : List E
  pub thrown : Option Exception

module _ {X E : Type 0} where
  abbrev pub ran : X → Call X E
  ran x = record { state = x; events = []; thrown = none }

  abbrev pub failed : X → Exception → Call X E
  failed x e = record { state = x; events = []; thrown = some e }

  -- What runs next, unless something was thrown.
  abbrev pub and_then : Call X E → (X → Call X E) → Call X E
  and_then r k = elim r.thrown [
    | none ↦
        let next = k r.state in
        record { state = next.state; events = r.events ++ next.events; thrown = next.thrown }
    | some e ↦ r
  ]

  -- `catch (...) {}`
  abbrev pub caught : Call X E → Call X E
  caught r = record r { thrown = none }

  -- A call on the thread of the network: its exception is not one of the call that waits. What stands
  -- for undefined behaviour or for no end stays.
  abbrev pub on_its_thread : Call X E → Call X E
  on_its_thread r = elim r.thrown [ none ↦ r | some e ↦ if is_caught e then caught r else r ]

  on_its_thread_lem :
      (P : X → Type 0) (x : X) (es : List E) (t : Option Exception)
      → P x
      → P (on_its_thread (record { state = x; events = es; thrown = t })).state
  on_its_thread_lem P x es none h = h
  on_its_thread_lem P x es (some e) h =
      elim (is_caught e)
        as (λ b.
          P
            (if◌then◌else◌ {A = Call X E} b (record { state = x; events = es; thrown = none })
              (record { state = x; events = es; thrown = some e })).state) [ true ↦ h | false ↦ h ]

  pub on_its_thread-keeps : (P : X → Type 0) (r : Call X E) → P r.state → P (on_its_thread r).state
  on_its_thread-keeps P r h = on_its_thread_lem P r.state r.events r.thrown h

  -- What is done to the object where something was thrown.
  abbrev pub where_thrown : (X → X) → Call X E → Call X E
  where_thrown g r = elim r.thrown [ none ↦ r | some e ↦ record r { state = g r.state } ]

  where_thrown_lem :
      (P : X → Type 0) (g : X → X) (x : X) (es : List E) (t : Option Exception)
      → P x
      → P (g x)
      → P (where_thrown g (record { state = x; events = es; thrown = t })).state
  where_thrown_lem P g x es none h k = h
  where_thrown_lem P g x es (some e) h k = k

  pub where_thrown-keeps :
      (P : X → Type 0) (g : X → X) (r : Call X E)
      → P r.state
      → P (g r.state)
      → P (where_thrown g r).state
  where_thrown-keeps P g r h k = where_thrown_lem P g r.state r.events r.thrown h k

  -- The value of an accessor, or its exception.
  abbrev pub taken : {A : Type 0} → Result A → X → (A → Call X E) → Call X E
  taken (ok a) x k = k a
  taken (throw e) x k = failed x e

  thrown_keeps :
      (P : X → Type 0) (x : X) (es : List E) (t : Option Exception) (k : X → Call X E)
      → P x
      → ((y : X) → P y → P (k y).state)
      → P (and_then (record { state = x; events = es; thrown = t }) k).state
  thrown_keeps P x es none k h step = step x h
  thrown_keeps P x es (some e) k h step = h

  -- What the first step establishes and every next step keeps, both keep.
  pub and_then-keeps :
      (P : X → Type 0) (r : Call X E) (k : X → Call X E)
      → P r.state
      → ((y : X) → P y → P (k y).state)
      → P (and_then r k).state
  and_then-keeps P r k h step = thrown_keeps P r.state r.events r.thrown k h step

  thrown_ends :
      (P Q : X → Type 0) (x : X) (es : List E) (t : Option Exception) (k : X → Call X E)
      → P x
      → ((y : X) → P y → (k y).thrown ≡ none → Q (k y).state)
      → (and_then (record { state = x; events = es; thrown = t }) k).thrown ≡ none
      → Q (and_then (record { state = x; events = es; thrown = t }) k).state
  thrown_ends P Q x es none k h step over = step x h over
  thrown_ends P Q x es (some e) k h step over = absurd (ground arith)

  -- Where both return, the end has what the next step has where it returns.
  pub and_then-ends :
      (P Q : X → Type 0) (r : Call X E) (k : X → Call X E)
      → P r.state
      → ((y : X) → P y → (k y).thrown ≡ none → Q (k y).state)
      → (and_then r k).thrown ≡ none
      → Q (and_then r k).state
  and_then-ends P Q r k h step over = thrown_ends P Q r.state r.events r.thrown k h step over

  pub taken-keeps :
      {A : Type 0} (P : X → Type 0) (r : Result A) (x : X) (k : A → Call X E)
      → P x
      → ((a : A) → P (k a).state)
      → P (taken r x k).state
  taken-keeps P (ok a) x k h step = step a
  taken-keeps P (throw e) x k h step = h

  thrown_same :
      (P : X → Type 0) (x : X) (es : List E) (t : Option Exception) (k l : X → Call X E)
      → P x
      → ((y : X) → P y → k y ≡ l y)
      → and_then (record { state = x; events = es; thrown = t }) k
        ≡ and_then (record { state = x; events = es; thrown = t }) l
  thrown_same P x es none k l h same =
      ap (λ (next : Call X E). record next { events = es ++ next.events }) (same x h)
  thrown_same P x es (some e) k l h same = refl

  -- Two next steps that agree on what the first establishes.
  pub and_then-same :
      (P : X → Type 0) (r : Call X E) (k l : X → Call X E)
      → P r.state
      → ((y : X) → P y → k y ≡ l y)
      → and_then r k ≡ and_then r l
  and_then-same P r k l h same = thrown_same P r.state r.events r.thrown k l h same

  returns_same :
      (x : X) (es : List E) (t : Option Exception) (k l : X → Call X E)
      → ((y : X) → (k y).thrown ≡ none → l y ≡ k y)
      → (and_then (record { state = x; events = es; thrown = t }) k).thrown ≡ none
      → and_then (record { state = x; events = es; thrown = t }) l
        ≡ and_then (record { state = x; events = es; thrown = t }) k
  returns_same x es none k l same over =
      ap (λ (next : Call X E). record next { events = es ++ next.events }) (same x over)
  returns_same x es (some e) k l same over = refl

  -- Two next steps that agree where the first one returns.
  pub and_then-returns :
      (r : Call X E) (k l : X → Call X E)
      → ((y : X) → (k y).thrown ≡ none → l y ≡ k y)
      → (and_then r k).thrown ≡ none
      → and_then r l ≡ and_then r k
  and_then-returns r k l same over = returns_same r.state r.events r.thrown k l same over

  -- What follows a call that returned.
  pub and_then-caught :
      (r : Call X E) (x : X) (events : List E) (k : X → Call X E) (d : Call X E)
      → r ≡ record { state = x; events = events; thrown = none }
      → k x ≡ d
      → and_then (caught r) k
        ≡ record { state = d.state; events = events ++ d.events; thrown = d.thrown }
  and_then-caught r x events k d e e' = rw (e, e') refl
