-- ===== src/Prelude/Text.antt =====
-- `std::string` as a list of bytes: literals, equality, and the search for "\r\n".
use Prim.Native.Nat.{ℕ, zero, suc, ◌+◌, ◌≤◌}
use Prim.Native.Char.{code}
use Prim.Native.String.{String}
use mathlib.Core.Path.{◌≡◌, refl}
use mathlib.Core.Logic.{◌≢◌}
use mathlib.Core.Bool.{Bool, true, false, ◌&&◌}
use mathlib.Core.List.{List, [], ◌∷◌, ◌++◌}
use mathlib.Core.Option.{Option, none, some}
use native.Mathlib.Omega.{arith}
use cpp_redis.Prelude.Tests.{◌==◌, if◌then◌else◌}
use cpp_redis.Prelude.Lists.{length}

abbrev pub Bytes : Type 0
Bytes = List ℕ

-- The bytes of an ASCII literal.
abbrev pub codes : String → Bytes
codes String.[] = []
codes (String.◌∷◌ c s) = code c ∷ codes s

abbrev pub cr : ℕ
cr = 13

abbrev pub lf : ℕ
lf = 10

abbrev pub crlf : Bytes
crlf = cr ∷ lf ∷ []

abbrev pub bytes_eq : Bytes → Bytes → Bool
bytes_eq [] [] = true
bytes_eq [] (_ ∷ _) = false
bytes_eq (_ ∷ _) [] = false
bytes_eq (x ∷ xs) (y ∷ ys) = x == y && bytes_eq xs ys

pub bytes_eq→eq : (xs ys : Bytes) → bytes_eq xs ys ≡ true → xs ≡ ys
bytes_eq→eq [] [] h = refl
bytes_eq→eq [] (_ ∷ _) h = ground arith
bytes_eq→eq (_ ∷ _) [] h = ground arith
bytes_eq→eq (x ∷ xs) (y ∷ ys) h = ground (arith, bytes_eq→eq xs ys)

pub bytes_eq_refl : (xs : Bytes) → bytes_eq xs xs ≡ true
bytes_eq_refl [] = refl
bytes_eq_refl (x ∷ xs) = ground (arith, bytes_eq_refl xs)

-- Whether the text begins with "\r\n".
abbrev starts_crlf : Bytes → Bool
starts_crlf (a ∷ b ∷ _) = a == cr && b == lf
starts_crlf (_ ∷ []) = false
starts_crlf [] = false

abbrev later : Option ℕ → Option ℕ
later none = none
later (some p) = some (suc p)

-- `buffer.find("\r\n")`, where `npos` is `none`.
unfoldable pub find_crlf : Bytes → Option ℕ
find_crlf [] = none
find_crlf (c ∷ rest) = if starts_crlf (c ∷ rest) then some 0 else later (find_crlf rest)

-- The end of a line stands whole inside the text.
pub find_crlf_bound : (xs : Bytes) (p : ℕ) → find_crlf xs ≡ some p → p + 2 ≤ length xs
unfolding find_crlf
find_crlf_bound [] p h = ground arith
find_crlf_bound (a ∷ []) p h = ground arith
find_crlf_bound (a ∷ b ∷ rest) zero h = omega arith
find_crlf_bound (a ∷ b ∷ rest) (suc p) h = ground (arith, find_crlf_bound (b ∷ rest) p)

-- More input does not move the first end of a line.
pub find_crlf-append :
    (xs ys : Bytes) (p : ℕ) → find_crlf xs ≡ some p → find_crlf (xs ++ ys) ≡ some p
unfolding find_crlf
find_crlf-append [] ys p h = ground arith
find_crlf-append (a ∷ []) ys p h = ground arith
find_crlf-append (a ∷ b ∷ rest) ys zero h = ground arith
find_crlf-append (a ∷ b ∷ rest) ys (suc p) h = ground (arith, find_crlf-append (b ∷ rest) ys p)

abbrev pub NoCr : Bytes → Type 0
NoCr [] = Unit
NoCr (c ∷ s) = (c ≢ cr) × NoCr s

-- A line without "\r" ends where its terminator begins.
pub find_crlf_line : (s rest : Bytes) → NoCr s → find_crlf (s ++ (crlf ++ rest)) ≡ some (length s)
unfolding find_crlf
find_crlf_line [] rest h = refl
find_crlf_line (a ∷ []) rest (ha, hs) = ground (arith, find_crlf_line [] rest hs)
find_crlf_line (a ∷ b ∷ s) rest (ha, hs) = ground (arith, find_crlf_line (b ∷ s) rest hs)
