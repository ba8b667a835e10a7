-- ===== src/Builders.antt =====
-- The reply parsers (includes/cpp_redis/builders, sources/builders), a module for each class.
pub mod Fed
pub mod IntegerBuilder
pub mod SimpleStringBuilder
pub mod ErrorBuilder
pub mod BulkStringBuilder
pub mod Builder
pub mod ReplyBuilder
