-- ===== src/Examples.antt =====
-- Runs of the definitions on concrete inputs, and the theorems at concrete inputs.
mod Socket
mod Replies
mod Parsing
mod Network
mod Sentinels
mod Clients
mod Subscribers
mod Runs
mod Logging
