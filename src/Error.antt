-- ===== src/Error.antt =====
-- Exceptions that the code throws (includes/cpp_redis/misc/error.hpp and the standard library's), and
-- the undefined behaviour that a model has to be able to state.
use Prim.Native.String.{String}
use mathlib.Core.Bool.{Bool, true, false}
use mathlib.Core.Option.{Option, none, some}

pub data Exception : Type 0 where
  -- `cpp_redis::redis_error`, with its message
  redis_error : String → Exception
  -- the two exceptions of `std::stoi`
  invalid_argument out_of_range : Exception
  -- a call of an empty `std::function`
  bad_function_call : Exception
  -- no exception: the source has undefined behaviour here (signed overflow, a read out of bounds)
  undefined : Exception
  -- no exception: the call waits for ever
  never_returns : Exception
  -- no exception: the model's recursion was given too few rounds
  out_of_fuel : Exception

-- Whether it is an exception of C++, which can be caught.
abbrev pub is_caught : Exception → Bool
is_caught undefined = false
is_caught never_returns = false
is_caught out_of_fuel = false
is_caught _ = true

pub data Result {ℓ} (A : Type ℓ) : Type ℓ where
  ok : A → Result A
  throw : Exception → Result A

infixl 5 ◌>>=◌
abbrev pub ◌>>=◌ {ℓ κ} : {A : Type ℓ} {B : Type κ} → Result A → (A → Result B) → Result B
ok a >>= f = f a
throw e >>= f = throw e

-- The exception, where there is one.
abbrev pub thrown_of {ℓ} : {A : Type ℓ} → Result A → Option Exception
thrown_of (ok a) = none
thrown_of (throw e) = some e
