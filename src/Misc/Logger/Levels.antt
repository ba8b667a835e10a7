-- ===== src/Misc/Logger/Levels.antt =====
-- What loggers of different levels write (sources/misc/logger.cpp).
use cpp_redis.Prelude.{
  ℕ, ◌≤◌, Bool, true, false, some, List, [], ◌∷◌, ◌++◌, Bytes, ◌≡◌, refl, ap, arith, leb,
  if◌then◌else◌,
}
use mathlib.Core.List.{Sublist, sublist-append_left}
use mathlib.Core.List.Sublist
use cpp_redis.Misc.Logger.{
  Logger, Streams, level_value, LogLevel, error_level, warn_level, info_level, debug_level,
}
use cpp_redis.Misc.Logger
use cpp_redis.Misc.Logger.Active
use cpp_redis.Misc.Logger.Active.{Message, log, log_all}

-- The first pair of streams has some of the other's lines on `out`, and the same on `err`.
abbrev pub Quieter : Streams → Streams → Type 0
Quieter s t = Sublist s.out t.out × s.err ≡ t.err

abbrev message : LogLevel → Bytes → Bytes → ℕ → Message
message level msg file line = record { level = level; msg = msg; file = file; line = line }

leb_le : (k a b : ℕ) → a ≤ b → leb k a ≡ true → leb k b ≡ true
leb_le k a b h e = ground arith

abbrev on_out : Bytes → Streams → Streams
on_out line s = record s { out = s.out ++ line ∷ [] }

written_lem :
    (p q : Bool) (line : Bytes) (s t : Streams)
    → (p ≡ true → q ≡ true)
    → Quieter s t
    → Quieter (if p then on_out line s else s) (if q then on_out line t else t)
written_lem false false line s t h r = r
written_lem false true line s t h r =
    (Sublist.trans r.0 (sublist-append_left t.out (line ∷ [])), r.1)
written_lem true true line s t h r = (Sublist.append r.0 (Sublist.refl (line ∷ [])), r.1)
written_lem true false line s t h r = absurd (ground (arith, h refl))

leb_zero : (a : ℕ) → leb 0 a ≡ true
leb_zero a = ground arith

abbrev on_err : Bytes → Streams → Streams
on_err line s = record s { err = s.err ++ line ∷ [] }

err_lem :
    (p q : Bool) (line : Bytes) (s t : Streams)
    → p ≡ true
    → q ≡ true
    → Quieter s t
    → Quieter (if p then on_err line s else s) (if q then on_err line t else t)
err_lem p q line s t hp hq r = rw (hp, hq) (r.0, ap (λ ls. ls ++ line ∷ []) r.1)

module _ (quiet loud : Logger) (h : level_value quiet.level ≤ level_value loud.level) where
  out_lem :
      (k : ℕ) (line : Bytes) (s t : Streams)
      → Quieter s t
      → Quieter
          (if leb k (level_value quiet.level) then on_out line s else s)
          (if leb k (level_value loud.level) then on_out line t else t)
  out_lem k line s t r =
      written_lem (leb k (level_value quiet.level)) (leb k (level_value loud.level)) line s t
        (leb_le k (level_value quiet.level) (level_value loud.level) h) r

  log-Quieter :
      (level : LogLevel) (msg file : Bytes) (line : ℕ) (s t : Streams)
      → Quieter s t
      → Quieter
          (log (some quiet) (message level msg file line) s)
          (log (some loud) (message level msg file line) t)
  unfolding log Active.debug Active.info Active.warn Active.error Logger.debug Logger.info
      Logger.warn Logger.error
  log-Quieter debug_level msg file line s t r = out_lem 3 _ s t r
  log-Quieter info_level msg file line s t r = out_lem 2 _ s t r
  log-Quieter warn_level msg file line s t r = out_lem 1 _ s t r
  log-Quieter error_level msg file line s t r =
      err_lem (leb 0 (level_value quiet.level)) (leb 0 (level_value loud.level)) _ s t
        (leb_zero (level_value quiet.level)) (leb_zero (level_value loud.level)) r

  log_all-Quieter :
      (ms : List Message) (s t : Streams)
      → Quieter s t
      → Quieter (log_all (some quiet) ms s) (log_all (some loud) ms t)
  unfolding log_all
  log_all-Quieter [] s t r = r
  log_all-Quieter (m ∷ ms) s t r =
      log_all-Quieter ms (log (some quiet) m s) (log (some loud) m t)
        (log-Quieter m.level m.msg m.file m.line s t r)

  -- A logger of a level that is not higher writes on `std::cout` some of the lines that the other
  -- one writes, in the same order, and on `std::cerr` the same lines.
  pub log_all-louder :
      (ms : List Message) (s : Streams)
      → Sublist (log_all (some quiet) ms s).out (log_all (some loud) ms s).out
        × (log_all (some quiet) ms s).err ≡ (log_all (some loud) ms s).err
  log_all-louder ms s = log_all-Quieter ms s s (Sublist.refl s.out, refl)
