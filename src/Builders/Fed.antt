-- ===== src/Builders/Fed.antt =====
-- What one call of a builder's `operator<<` leaves behind. The source changes the builder and the
-- shared buffer in place, also before it throws, so both are there whether it throws or not.
use cpp_redis.Prelude.{Bool, true, false, Option, none, some, Bytes}
use cpp_redis.Error.{Exception}

pub record Fed {ℓ} (B : Type ℓ) : Type ℓ where
  pub builder : B
  pub buffer : Bytes
  pub thrown : Option Exception

-- The call returned, or threw.
abbrev pub returned {ℓ} : {B : Type ℓ} → B → Bytes → Fed B
returned b buffer = record { builder = b; buffer = buffer; thrown = none }

abbrev pub threw {ℓ} : {B : Type ℓ} → B → Bytes → Exception → Fed B
threw b buffer e = record { builder = b; buffer = buffer; thrown = some e }

abbrev pub map_builder {ℓ κ} : {B : Type ℓ} {C : Type κ} → (B → C) → Fed B → Fed C
map_builder g f = record { builder = g f.builder; buffer = f.buffer; thrown = f.thrown }

abbrev pub is_some {ℓ} : {A : Type ℓ} → Option A → Bool
is_some none = false
is_some (some _) = true

-- A call that also returns whether it got what it came for. Where it threw, the answer is not read.
pub record Fetched {ℓ} (B : Type ℓ) : Type ℓ where
  pub fed : Fed B
  pub done : Bool
