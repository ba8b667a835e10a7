-- ===== src/Misc.antt =====
-- sources/misc: the logger.
pub mod Logger
