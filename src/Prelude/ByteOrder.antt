-- ===== src/Prelude/ByteOrder.antt =====
-- `operator<` and `operator==` of `std::string`.
use mathlib.Core.Path.{◌≡◌, refl, sym, ap, ◌∙◌}
use mathlib.Core.Logic.{inl, inr}
use mathlib.Core.Bool.{Bool, true, false, ◌&&◌, ◌||◌}
use mathlib.Core.List.{[], ◌∷◌}
use native.Mathlib.Omega.{arith}
use cpp_redis.Prelude.Tests.{◌==◌, ltb, Bool-cases}
use cpp_redis.Prelude.Text.{Bytes, bytes_eq, bytes_eq→eq}

-- `std::string` compares byte by byte, and a prefix comes first.
unfoldable pub less : Bytes → Bytes → Bool
less [] [] = false
less [] (y ∷ ys) = true
less (x ∷ xs) [] = false
less (x ∷ xs) (y ∷ ys) = ltb x y || (x == y && less xs ys)

pub less_irrefl : (xs : Bytes) → less xs xs ≡ false
unfolding less
less_irrefl [] = refl
less_irrefl (x ∷ xs) = ground (arith, less_irrefl xs)

pub less_trans : (xs ys zs : Bytes) → less xs ys ≡ true → less ys zs ≡ true → less xs zs ≡ true
unfolding less
less_trans [] [] zs h k = k
less_trans [] (y ∷ ys) [] h k = k
less_trans [] (y ∷ ys) (z ∷ zs) h k = refl
less_trans (x ∷ xs) [] zs h k = ground arith
less_trans (x ∷ xs) (y ∷ ys) [] h k = k
less_trans (x ∷ xs) (y ∷ ys) (z ∷ zs) h k = ground (arith, less_trans xs ys zs)

pub less_asym : (xs ys : Bytes) → less xs ys ≡ true → less ys xs ≡ false
less_asym xs ys h = elim (Bool-cases (less ys xs)) [
  | inl k ↦ k ∙ sym (less_trans xs ys xs h k) ∙ less_irrefl xs
  | inr k ↦ k
]

pub less_total : (xs ys : Bytes) → bytes_eq xs ys ≡ false → less xs ys ≡ false → less ys xs ≡ true
unfolding less
less_total [] [] h k = ground arith
less_total [] (y ∷ ys) h k = ground arith
less_total (x ∷ xs) [] h k = refl
less_total (x ∷ xs) (y ∷ ys) h k = ground (arith, less_total xs ys)

pub less-bytes_eq : (xs ys : Bytes) → less xs ys ≡ true → bytes_eq xs ys ≡ false
unfolding less
less-bytes_eq [] [] h = ground arith
less-bytes_eq [] (y ∷ ys) h = refl
less-bytes_eq (x ∷ xs) [] h = refl
less-bytes_eq (x ∷ xs) (y ∷ ys) h = ground (arith, less-bytes_eq xs ys)

pub bytes_eq_sym : (xs ys : Bytes) → bytes_eq xs ys ≡ bytes_eq ys xs
bytes_eq_sym [] [] = refl
bytes_eq_sym [] (y ∷ ys) = refl
bytes_eq_sym (x ∷ xs) [] = refl
bytes_eq_sym (x ∷ xs) (y ∷ ys) = ground (arith, bytes_eq_sym xs ys)

pub same_test : (k j d : Bytes) → bytes_eq j d ≡ true → bytes_eq k j ≡ bytes_eq k d
same_test k j d h = ap (bytes_eq k) (bytes_eq→eq j d h)

-- A text is not equal to two that differ.
pub exclusive : (k j d : Bytes) → bytes_eq j d ≡ false → bytes_eq k j && bytes_eq k d ≡ false
exclusive k j d h = elim (Bool-cases (bytes_eq k j)) [
  | inl eq ↦ rw eq (ap (λ x. bytes_eq x d) (bytes_eq→eq k j eq) ∙ h)
  | inr ne ↦ rw ne refl
]
