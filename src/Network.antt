-- ===== src/Network.antt =====
-- The network layer (includes/cpp_redis/network, sources/network).
pub mod TcpClient
pub mod Command
pub mod Connection
