-- ===== src/Client/Log/Leveled.antt =====
-- Which levels have a logger, and under which level gVisor's lines are logged.
use cftun.Common.{◌≡◌, refl, String, none, ok, arith, if◌then◌else◌, ◌==◌}
use cftun.Common.Int.{pos, negsuc, ◌≤ℤ◌}
use cftun.Client.Log.{
  Level, debug_level, info_level, warn_level, fatal_level, Zap, Core, parse_level, new_leveled,
  new_logger, nop, development, production, level_of,
}

-- What the name of a level comes to, where zap builds every logger.
pub expected : Level → Core
expected (pos n) = if n == 7 then nop else production (pos n)
expected (negsuc n) = development

-- A level that was read from its name has a logger: none at all for "silent", and otherwise one of
-- the level, where zap reads no level but its own and builds loggers for them.
pub parse_level-new_leveled :
    (zap : Zap) (text : String) (l : Level)
    → ((t : String) (k : Level)
        → zap.parse_level t ≡ ok k
        → (debug_level ≤ℤ k) × (k ≤ℤ fatal_level))
    → zap.new_development ≡ none
    → ((k : Level) → zap.build k ≡ none)
    → parse_level zap text ≡ ok l
    → new_leveled zap l ≡ ok (new_logger (expected l))
unfolding parse_level new_leveled expected
parse_level-new_leveled zap text (pos n) own dev all e =
    ground (arith, own text (pos n), all (pos n))
parse_level-new_leveled zap text (negsuc n) own dev all e = ground (arith, own text (negsuc n))

-- gVisor's numbers for a warning, an information and a debug line become the levels of that name.
pub level_of-names :
    (level_of 0 ≡ warn_level) × (level_of 1 ≡ info_level) × (level_of 2 ≡ debug_level)
unfolding level_of
level_of-names = (refl, refl, refl)
