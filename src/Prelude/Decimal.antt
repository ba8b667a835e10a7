-- ===== src/Prelude/Decimal.antt =====
-- `std::to_string` of an unsigned number.
use Prim.Native.Nat.{ℕ, zero, suc, ◌+◌, ◌-◌, ◌*◌, ◌/◌, ◌%◌, ◌≤◌, ◌<◌}
use mathlib.Core.Path.{◌≡◌, refl}
use mathlib.Core.Logic.{inl, inr, ◌≢◌}
use mathlib.Core.List.{[], ◌∷◌, ◌++◌}
use native.Mathlib.Omega.{arith}
use cpp_redis.Prelude.Tests.{ltb, if◌then◌else◌, Bool-cases}
use cpp_redis.Prelude.Text.{Bytes, codes, NoCr}

-- Each round divides by ten, so as many rounds as the number itself are enough.
digits : ℕ → ℕ → Bytes
digits zero n = []
digits (suc f) n =
    let front = digits f (n / 10) in (if ltb n 10 then [] else front) ++ (b'0' + n % 10) ∷ []

unfoldable pub to_string : ℕ → Bytes
unfolding digits
to_string n = digits (suc n) n

to_string_runs : to_string 18446744073709551615 ≡ codes "18446744073709551615"
unfolding to_string
to_string_runs = refl

abbrev pub AllDigits : Bytes → Type 0
AllDigits [] = Unit
AllDigits (c ∷ s) = (b'0' ≤ c) × (c ≤ b'9') × AllDigits s

-- The number that decimal digits spell behind `n`.
abbrev pub value : ℕ → Bytes → ℕ
value n [] = n
value n (c ∷ s) = value (n * 10 + (c - b'0')) s

AllDigits-snoc : (s : Bytes) (c : ℕ) → AllDigits s → b'0' ≤ c → c ≤ b'9' → AllDigits (s ++ c ∷ [])
AllDigits-snoc [] c h lo hi = (lo, hi, tt)
AllDigits-snoc (x ∷ s) c (l, u, h) lo hi = (l, u, AllDigits-snoc s c h lo hi)

value_snoc : (s : Bytes) (n c : ℕ) → value n (s ++ c ∷ []) ≡ value n s * 10 + (c - b'0')
value_snoc [] n c = refl
value_snoc (x ∷ s) n c = value_snoc s (n * 10 + (x - b'0')) c

digits-AllDigits : (f n : ℕ) → AllDigits (digits f n)
unfolding digits
digits-AllDigits zero n = tt
digits-AllDigits (suc f) n = elim (Bool-cases (ltb n 10)) [
  | inl small ↦ rw small (omega arith, omega arith, tt)
  | inr big ↦ rw big (
      AllDigits-snoc (digits f (n / 10)) _ (digits-AllDigits f (n / 10)) (omega arith)
        (omega arith))
]

value-digits : (f n : ℕ) → n < f → value 0 (digits f n) ≡ n
unfolding digits
value-digits zero n h = absurd (omega arith)
value-digits (suc f) n h = elim (Bool-cases (ltb n 10)) [
  | inl small ↦ rw small (ground arith)
  | inr big ↦
      rw big
        (ground (arith, value_snoc (digits f (n / 10)) 0 (b'0' + n % 10), value-digits f (n / 10)))
]

pub to_string-AllDigits : (n : ℕ) → AllDigits (to_string n)
unfolding to_string
to_string-AllDigits n = digits-AllDigits (suc n) n

-- The decimal print of a number spells that number.
pub value-to_string : (n : ℕ) → value 0 (to_string n) ≡ n
unfolding to_string
value-to_string n = value-digits (suc n) n (omega arith)

pub AllDigits-NoCr : (s : Bytes) → AllDigits s → NoCr s
AllDigits-NoCr [] h = tt
AllDigits-NoCr (c ∷ s) (lo, hi, h) = (ground arith, AllDigits-NoCr s h)

append-nonempty : (s : Bytes) (c : ℕ) → s ++ c ∷ [] ≢ []
append-nonempty [] c h = ground arith
append-nonempty (x ∷ s) c h = ground arith

pub to_string-nonempty : (n : ℕ) → to_string n ≢ []
unfolding to_string digits
to_string-nonempty n = append-nonempty (if ltb n 10 then [] else digits n (n / 10)) (b'0' + n % 10)
