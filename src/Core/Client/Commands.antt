-- ===== src/Core/Client/Commands.antt =====
-- The commands of `client` (sources/core/client.cpp), by what they are about. Each stores its words
-- in the send buffer and its callback in the queue.
pub mod Cluster
pub mod Flags
pub mod Floats
pub mod Geo
pub mod Hashes
pub mod Keys
pub mod Killing
pub mod Lists
pub mod Options
pub mod RangeDoubles
pub mod RangeIntegers
pub mod RangeStrings
pub mod Ranges
pub mod Scans
pub mod Server
pub mod Session
pub mod Sets
pub mod SortedSets
pub mod Sorting
pub mod Strings
