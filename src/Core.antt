-- ===== src/Core.antt =====
-- The classes that a user of the library holds (includes/cpp_redis/core, sources/core).
pub mod Call
pub mod Interrupted
pub mod Retries
pub mod Stoi
pub mod Sentinel
pub mod Client
pub mod Subscriber
