-- ===== src/Examples/Logging.antt =====
-- Loggers of two levels on a few messages.
use cpp_redis.Prelude.{◌≡◌, refl, codes, [], ◌∷◌, List, ℕ, some, none, arith}
use mathlib.Core.List.{Sublist}
use cpp_redis.Misc.Logger.{
  Logger, Streams, LogLevel, error_level, warn_level, info_level, debug_level, level_value, line_of,
  yellow,
}
use cpp_redis.Misc.Logger.Active.{Message, log, log_all}
use cpp_redis.Misc.Logger.Levels.{log_all-louder}
use cpp_redis.Misc.Logger
use cpp_redis.Misc.Logger.Active

abbrev quiet : Logger
quiet = record { level = warn_level }

abbrev loud : Logger
loud = record { level = debug_level }

abbrev said : LogLevel → ℕ → Message
said level line = record { level = level; msg = codes "x"; file = codes "f"; line = line }

abbrev messages : List Message
messages = said debug_level 1 ∷ said warn_level 2 ∷ said error_level 3 ∷ said info_level 4 ∷ []

abbrev silent : Streams
silent = record { out = []; err = [] }

quiet_run :
    (log_all (some quiet) messages silent).out
    ≡ line_of yellow (codes "WARN ") (codes "x") (codes "f") 2 ∷ []
unfolding log_all log Active.debug Active.info Active.warn Active.error Logger.debug Logger.info
    Logger.warn Logger.error
quiet_run = refl

no_logger : log_all none messages silent ≡ silent
unfolding log_all log Active.debug Active.info Active.warn Active.error
no_logger = refl

log_all-louder_example :
    Sublist (log_all (some quiet) messages silent).out (log_all (some loud) messages silent).out
    × (log_all (some quiet) messages silent).err ≡ (log_all (some loud) messages silent).err
log_all-louder_example = log_all-louder quiet loud (ground arith) messages silent
