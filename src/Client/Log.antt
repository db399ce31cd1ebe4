-- ===== src/Client/Log.antt =====
-- client/tun/log: the levels of the TUN engine, its global logger, and the target of gVisor's log.
-- zap is a parameter: how it reads the name of a level, and whether it builds a logger. A logger is
-- known by how it was made and by the callers that it skips.
pub mod Leveled
use cftun.Common.{
  ℕ, ◌+◌, ◌-◌, ◌%◌, Bool, true, false, ◌&&◌, ltb, ◌==◌, if◌then◌else◌, str_eq, Option, none, some,
  String, List, [], ◌∷◌, Result, ok, err,
}
use cftun.Common.Text.{◌<>◌}
use cftun.Common.Int.{ℤ, pos, negsuc}

-- zapcore.Level is an integer of 8 bits.
abbrev pub Level : Type 0
Level = ℤ

abbrev pub debug_level : Level
debug_level = negsuc 0

abbrev pub info_level : Level
info_level = pos 0

abbrev pub warn_level : Level
warn_level = pos 1

abbrev pub error_level : Level
error_level = pos 2

abbrev pub dpanic_level : Level
dpanic_level = pos 3

abbrev pub panic_level : Level
panic_level = pos 4

abbrev pub fatal_level : Level
fatal_level = pos 5

abbrev pub silent_level : Level
silent_level = pos 7

abbrev pub same_level : Level → Level → Bool
same_level (pos a) (pos b) = a == b
same_level (negsuc a) (negsuc b) = a == b
same_level (pos a) (negsuc b) = false
same_level (negsuc a) (pos b) = false

pub data Core : Type 0 where
  nop development : Core
  production : Level → Core

pub record Logger : Type 0 where
  pub core : Core
  pub caller_skip : ℕ

-- The errors of zap, where there is one, and the text of a level.
pub record Zap : Type 0 where
  pub parse_level : String → Result String Level
  pub new_development : Option String
  pub build : Level → Option String
  pub level_string : Level → String

-- AddCallerSkip(2)
unfoldable pub pkg_caller_skip : Logger → Logger
pkg_caller_skip l = record l { caller_skip = l.caller_skip + 2 }

abbrev pub new_logger : Core → Logger
new_logger core = record { core = core; caller_skip = 0 }

abbrev pub built : Option String → Core → Result String Logger
built none core = ok (new_logger core)
built (some e) core = err e

module _ (zap : Zap) where
  unfoldable pub parse_level : String → Result String Level
  parse_level text =
      if str_eq text "silent"
      then ok silent_level
      else if str_eq text "SILENT"
      then ok silent_level
      else zap.parse_level text

  -- The levels of the third case.
  unfoldable pub is_production : Level → Bool
  is_production (pos n) = ltb n 6
  is_production (negsuc n) = false

  unfoldable pub new_leveled : Level → Result String Logger
  unfolding is_production
  new_leveled l =
      if same_level l silent_level
      then ok (new_logger nop)
      else if same_level l debug_level
      then built zap.new_development development
      else if is_production l
      then built (zap.build l) (production l)
      else err ("invalid level: " <> zap.level_string l)

-- The package's variables `_globalL` and `_globalS`, and the logger of `_globalE`.
pub record Global : Type 0 where
  pub logger : Logger
  pub sugared : Logger
  pub emitter : Logger

unfoldable pub set_emitter : Logger → Logger
unfolding pkg_caller_skip
set_emitter logger = pkg_caller_skip logger

unfoldable pub set_logger : Logger → Global
unfolding pkg_caller_skip set_emitter
set_logger logger =
    let l = pkg_caller_skip logger in record { logger = l; sugared = l; emitter = set_emitter l }

-- A call of Logf: the logger, the level and the template.
pub record Line : Type 0 where
  pub by : Logger
  pub level : Level
  pub template : String

-- `1-Level(level)` in 8 bits with a sign.
unfoldable pub level_of : ℕ → Level
level_of level = let n = (257 - level % 256) % 256 in if ltb n 128 then pos n else negsuc (255 - n)

module _ (g : Global) where
  unfoldable pub logf : Level → String → Line
  logf lvl template = record { by = g.sugared; level = lvl; template = template }

  unfoldable pub debugf : String → Line
  unfolding logf
  debugf template = logf debug_level template

  unfoldable pub infof : String → Line
  unfolding logf
  infof template = logf info_level template

  unfoldable pub warnf : String → Line
  unfolding logf
  warnf template = logf warn_level template

  unfoldable pub errorf : String → Line
  unfolding logf
  errorf template = logf error_level template

  unfoldable pub fatalf : String → Line
  unfolding logf
  fatalf template = logf fatal_level template

  unfoldable pub emitter_logf : ℕ → String → Line
  unfolding level_of
  emitter_logf level format = record {
    by = g.emitter;
    level = level_of level;
    template = "[STACK] " <> format;
  }

  -- `Emit`, with the file and the line of the caller where the runtime knows them.
  unfoldable pub emit : (String → String → Bool) → Option (String × ℕ) → ℕ → String → Option Line
  unfolding emitter_logf
  emit has_suffix none level format = some (emitter_logf level format)
  emit has_suffix (some (file, line)) level format =
      if line == 457 && has_suffix file "gonet/gonet.go"
      then none
      else some (emitter_logf level format)
