-- ===== src/Core/Client/Futures.antt =====
-- The commands of `client` that give a future (sources/core/client.cpp). A promise is a number, which
-- is also its future's; its value is set where the event `promise_set` is.
pub mod Cluster
pub mod Flags
pub mod Floats
pub mod Geo
pub mod Hashes
pub mod Keys
pub mod Killing
pub mod Lists
pub mod Options
pub mod RangeDoubles
pub mod RangeIntegers
pub mod RangeStrings
pub mod Ranges
pub mod Scans
pub mod Server
pub mod Session
pub mod Sets
pub mod SortedSets
pub mod Sorting
pub mod Strings
use cpp_redis.Prelude.{ℕ}
use cpp_redis.Core.Client.{Client, Callback, sets_promise}

-- What a command does on a promise that is new, and the future.
abbrev pub Promised : Type 0 → Type 0
Promised S = ℕ → Client S → Client S × ℕ

-- `exec_cmd`: the command runs with a callback that sets the promise.
abbrev pub exec_cmd : {S : Type 0} → (Callback → Client S → Client S) → Promised S
exec_cmd f prms c = (f (sets_promise prms) c, prms)
