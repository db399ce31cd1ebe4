-- ===== src/Client/Route.antt =====
-- client/tun/route: the commands that address the TUN device and set its routes. A command is its
-- words; what the commands that list routes print is a parameter, `none` where they fail.
pub mod Linux
pub mod Darwin
pub mod Freebsd
pub mod Windows
pub mod Targets
use cftun.Common.{
  ℕ, Bool, not, Option, none, some, String, List, [], ◌∷◌, ◌++◌, get_or, length, map, leb,
  if◌then◌else◌,
}
use cftun.Common.Text.{◌<>◌, contains, has_prefix, fields, split}

abbrev pub Command : Type 0
Command = List String

-- `route += "/128"` where there is no prefix length.
unfoldable pub target6 : String → String
target6 route = if contains b'/' route then route else route <> "/128"

unfoldable pub target4 : String → String
target4 route = if contains b'/' route then route else route <> "/32"

-- The part that adds the exclusions, behind its guard: the queries that it runs, and one command
-- for each exclusion.
abbrev pub exclusions : List String → List Command → (String → Command) → List Command
exclusions [] queries add = []
exclusions (r ∷ rs) queries add = queries ++ map add (r ∷ rs)

-- The loop over the printed lines: the first that starts with `start` and has `least` words or
-- more.
unfoldable pub find_line : String → ℕ → List String → List String
find_line start least [] = []
find_line start least (line ∷ rest) =
    if has_prefix line start
    then (if leb least (length (fields line)) then fields line else find_line start least rest)
    else find_line start least rest

abbrev pub lines_of : Option String → List String
lines_of none = []
lines_of (some out) = split b'\n' out
