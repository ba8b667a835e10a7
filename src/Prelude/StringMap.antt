-- ===== src/Prelude/StringMap.antt =====
-- `std::map<std::string, V>` as the list of its entries in the order of the keys.
use mathlib.Core.Path.{◌≡◌, refl, subst, sym, ap, ◌∙◌}
use mathlib.Core.Logic.{inl, inr}
use mathlib.Core.Bool.{Bool, true, false, ◌&&◌}
use mathlib.Core.List.{List, [], ◌∷◌, ◌++◌, append_assoc, append-nil}
use mathlib.Core.Option.{Option, none, some}
use native.Mathlib.Omega.{arith}
use cpp_redis.Prelude.Tests.{if◌then◌else◌, Bool-cases}
use cpp_redis.Prelude.Text.{Bytes, bytes_eq, bytes_eq→eq}
use cpp_redis.Prelude.ByteOrder.{less}
use cpp_redis.Prelude.ByteOrder.{
  less_trans, less_asym, less_total, less-bytes_eq, bytes_eq_sym, same_test, exclusive,
}

if_shadow :
    {A : Type 0} (b c : Bool) (x y z : A)
    → b ≡ c
    → (if b then x else y) ≡ (if b then x else if c then z else y)
if_shadow true c x y z h = refl
if_shadow false true x y z h = ground arith
if_shadow false false x y z h = refl

if_swap :
    {A : Type 0} (b c : Bool) (x y z : A)
    → b && c ≡ false
    → (if c then z else if b then x else y) ≡ (if b then x else if c then z else y)
if_swap true true x y z h = ground arith
if_swap true false x y z h = refl
if_swap false true x y z h = refl
if_swap false false x y z h = refl

module _ {V : Type 0} where
  -- `it->second` of `find`, where it is not `end()`
  unfoldable pub find : Bytes → List (Bytes × V) → Option V
  find k [] = none
  find k (e ∷ m) = if bytes_eq k e.0 then some e.1 else find k m

  -- `m[k] = v`
  unfoldable pub insert : Bytes → V → List (Bytes × V) → List (Bytes × V)
  unfolding less
  insert k v [] = (k, v) ∷ []
  insert k v (e ∷ m) =
      if bytes_eq k e.0 then (k, v) ∷ m else if less k e.0 then (k, v) ∷ e ∷ m else e ∷ insert k v m

  -- `m.erase(it)` for the `it` that `find` gives
  unfoldable pub erase : Bytes → List (Bytes × V) → List (Bytes × V)
  erase k [] = []
  erase k (e ∷ m) = if bytes_eq k e.0 then m else e ∷ erase k m

  -- Every key is behind `k`.
  abbrev pub Above : Bytes → List (Bytes × V) → Type 0
  Above k [] = Unit
  Above k (e ∷ m) = (less k e.0 ≡ true) × Above k m

  -- The keys are in order, so that none is there twice.
  abbrev pub Sorted : List (Bytes × V) → Type 0
  Sorted [] = Unit
  Sorted (e ∷ m) = Above e.0 m × Sorted m

  -- Every key is in front of `k`.
  abbrev pub Below : Bytes → List (Bytes × V) → Type 0
  Below k [] = Unit
  Below k (e ∷ m) = (less e.0 k ≡ true) × Below k m

  Above-less : (j k : Bytes) (m : List (Bytes × V)) → less j k ≡ true → Above k m → Above j m
  Above-less j k [] h a = tt
  Above-less j k (e ∷ m) h (h', a) = (less_trans j k e.0 h h', Above-less j k m h a)

  find-Above : (k : Bytes) (m : List (Bytes × V)) → Above k m → find k m ≡ none
  unfolding find
  find-Above k [] a = refl
  find-Above k (e ∷ m) (h, a) = rw (less-bytes_eq k e.0 h) (find-Above k m a)

  pub find-insert :
      (k j : Bytes) (v : V) (m : List (Bytes × V))
      → find k (insert j v m) ≡ (if bytes_eq k j then some v else find k m)
  unfolding find insert
  find-insert k j v [] = refl
  find-insert k j v (e ∷ m) = elim (Bool-cases (bytes_eq j e.0)) [
    | inl eq ↦ rw eq (
        if_shadow (bytes_eq k j) (bytes_eq k e.0) (some v) (find k m) (some e.1)
          (same_test k j e.0 eq))
    | inr ne ↦ elim (Bool-cases (less j e.0)) [
      | inl lt ↦ rw (ne, lt) refl
      | inr ge ↦
          rw (ne, ge)
            (ap (λ r. if bytes_eq k e.0 then some e.1 else r) (find-insert k j v m)
              ∙ if_swap (bytes_eq k j) (bytes_eq k e.0) (some v) (find k m) (some e.1)
                  (exclusive k j e.0 ne))
    ]
  ]

  insert-Above :
      (k j : Bytes) (v : V) (m : List (Bytes × V))
      → less k j ≡ true
      → Above k m
      → Above k (insert j v m)
  unfolding insert
  insert-Above k j v [] h a = (h, tt)
  insert-Above k j v (e ∷ m) h (h', a) = elim (Bool-cases (bytes_eq j e.0)) [
    | inl eq ↦ rw eq (h, a)
    | inr eq ↦ elim (Bool-cases (less j e.0)) [
      | inl lt ↦ rw (eq, lt) (h, (h', a))
      | inr ge ↦ rw (eq, ge) (h', insert-Above k j v m h a)
    ]
  ]

  pub insert-Sorted : (k : Bytes) (v : V) (m : List (Bytes × V)) → Sorted m → Sorted (insert k v m)
  unfolding insert
  insert-Sorted k v [] s = (tt, tt)
  insert-Sorted k v (e ∷ m) (a, s) = elim (Bool-cases (bytes_eq k e.0)) [
    | inl eq ↦ rw eq (subst (λ j. Above j m) (sym (bytes_eq→eq k e.0 eq)) a, s)
    | inr eq ↦ elim (Bool-cases (less k e.0)) [
      | inl lt ↦ rw (eq, lt) ((lt, Above-less k e.0 m lt a), (a, s))
      | inr ge ↦
          rw (eq, ge) (insert-Above e.0 k v m (less_total k e.0 eq ge) a, insert-Sorted k v m s)
    ]
  ]

  erase-Above : (k j : Bytes) (m : List (Bytes × V)) → Above k m → Above k (erase j m)
  unfolding erase
  erase-Above k j [] a = tt
  erase-Above k j (e ∷ m) (h, a) = elim (Bool-cases (bytes_eq j e.0)) [
    | inl eq ↦ rw eq a
    | inr eq ↦ rw eq (h, erase-Above k j m a)
  ]

  pub erase-Sorted : (k : Bytes) (m : List (Bytes × V)) → Sorted m → Sorted (erase k m)
  unfolding erase
  erase-Sorted k [] s = tt
  erase-Sorted k (e ∷ m) (a, s) = elim (Bool-cases (bytes_eq k e.0)) [
    | inl eq ↦ rw eq s
    | inr eq ↦ rw eq (erase-Above e.0 k m a, erase-Sorted k m s)
  ]

  -- The only entry with the key is the first one.
  find_gone :
      (k j : Bytes) (e : Bytes × V) (m : List (Bytes × V))
      → Above e.0 m
      → bytes_eq j e.0 ≡ true
      → find k m ≡ (if bytes_eq k j then none else if bytes_eq k e.0 then some e.1 else find k m)
  find_gone k j e m a eq = elim (Bool-cases (bytes_eq k j)) [
    | inl h ↦
        rw h (
          find-Above k m
            (subst (λ d. Above d m) (sym (bytes_eq→eq k j h ∙ bytes_eq→eq j e.0 eq)) a))
    | inr h ↦
        let other : bytes_eq k e.0 ≡ false = sym (same_test k j e.0 eq) ∙ h in rw (h, other) refl
  ]

  pub find-erase :
      (k j : Bytes) (m : List (Bytes × V))
      → Sorted m
      → find k (erase j m) ≡ (if bytes_eq k j then none else find k m)
  unfolding find erase
  find-erase k j [] s = ground arith
  find-erase k j (e ∷ m) (a, s) = elim (Bool-cases (bytes_eq j e.0)) [
    | inl eq ↦ rw eq (find_gone k j e m a eq)
    | inr ne ↦ rw ne (
        ap (λ r. if bytes_eq k e.0 then some e.1 else r) (find-erase k j m s)
        ∙ if_swap (bytes_eq k j) (bytes_eq k e.0) none (find k m) (some e.1) (exclusive k j e.0 ne))
  ]

  -- To erase a key that is not there changes nothing.
  pub erase-find : (k : Bytes) (m : List (Bytes × V)) → find k m ≡ none → erase k m ≡ m
  unfolding find erase
  erase-find k [] h = refl
  erase-find k (e ∷ m) h = elim (Bool-cases (bytes_eq k e.0)) [
    | inl eq ↦ absurd (ground (arith, eq, h))
    | inr ne ↦ rw ne (ap (λ r. e ∷ r) (erase-find k m (ground (arith, ne, h))))
  ]

  -- A key behind all others is put at the end.
  pub insert-Below :
      (k : Bytes) (v : V) (m : List (Bytes × V)) → Below k m → insert k v m ≡ m ++ (k, v) ∷ []
  unfolding insert
  insert-Below k v [] b = refl
  insert-Below k v (e ∷ m) (h, b) =
      let ne : bytes_eq k e.0 ≡ false = bytes_eq_sym k e.0 ∙ less-bytes_eq e.0 k h in
      let ge : less k e.0 ≡ false = less_asym e.0 k h in
      rw (ne, ge) (ap (λ r. e ∷ r) (insert-Below k v m b))

  -- The entries are put into a map one by one.
  abbrev pub insert_all : List (Bytes × V) → List (Bytes × V) → List (Bytes × V)
  insert_all [] m = m
  insert_all (e ∷ rest) m = insert_all rest (insert e.0 e.1 m)

  -- Every key of the first map is in front of every key of the second.
  abbrev Apart : List (Bytes × V) → List (Bytes × V) → Type 0
  Apart m [] = Unit
  Apart m (e ∷ rest) = Below e.0 m × Apart m rest

  Below-append :
      (k : Bytes) (m : List (Bytes × V)) (e : Bytes × V)
      → Below k m
      → less e.0 k ≡ true
      → Below k (m ++ e ∷ [])
  Below-append k [] e b h = (h, tt)
  Below-append k (d ∷ m) e (h', b) h = (h', Below-append k m e b h)

  Apart-append :
      (m rest : List (Bytes × V)) (e : Bytes × V)
      → Apart m rest
      → Above e.0 rest
      → Apart (m ++ e ∷ []) rest
  Apart-append m [] e p a = tt
  Apart-append m (d ∷ rest) e (b, p) (h, a) = (Below-append d.0 m e b h, Apart-append m rest e p a)

  insert_all-Apart :
      (rest m : List (Bytes × V)) → Sorted rest → Apart m rest → insert_all rest m ≡ m ++ rest
  insert_all-Apart [] m s p = sym (append-nil m)
  insert_all-Apart (e ∷ rest) m (a, s) (b, p) =
      ap (insert_all rest) (insert-Below e.0 e.1 m b)
      ∙ insert_all-Apart rest (m ++ e ∷ []) s (Apart-append m rest e p a)
      ∙ append_assoc m (e ∷ []) rest

  Apart-nil : (rest : List (Bytes × V)) → Apart [] rest
  Apart-nil [] = tt
  Apart-nil (e ∷ rest) = (tt, Apart-nil rest)

  -- A map is built again from its own entries.
  pub insert_all-Sorted : (m : List (Bytes × V)) → Sorted m → insert_all m [] ≡ m
  insert_all-Sorted m s = insert_all-Apart m [] s (Apart-nil m)
