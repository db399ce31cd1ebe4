-- ===== src/Log.antt =====
-- log/level.go and log/log.go: the levels with their decoders, and the calls that log. Levels below
-- 0 are left out. `fmt.Sprintf` and encoding/json are parameters.
pub mod Levels
pub mod Observable
use cftun.Common.{
  ℕ, ◌+◌, ◌≤◌, ◌<◌, Bool, true, false, not, ltb, ◌==◌, if◌then◌else◌, str_eq, Option, none, some,
  String, List, [], ◌∷◌, ◌++◌, length, map,
}

pub data LogLevel : Type 0 where
  debug info warning error silent : LogLevel
  other : ℕ → LogLevel

-- The numbers of the constants; `other n` is n + 5.
unfoldable pub rank : LogLevel → ℕ
rank debug = 0
rank info = 1
rank warning = 2
rank error = 3
rank silent = 4
rank (other n) = 5 + n

unfoldable pub level_string : LogLevel → String
level_string info = "info"
level_string warning = "warning"
level_string error = "error"
level_string debug = "debug"
level_string silent = "silent"
level_string (other n) = "unknown"

-- `LogLevelMapping`, and the two decoders that look into it: none is "invalid mode".
unfoldable pub log_level_mapping : String → Option LogLevel
log_level_mapping tp =
    if str_eq tp "error"
    then some error
    else if str_eq tp "warning"
    then some warning
    else if str_eq tp "info"
    then some info
    else if str_eq tp "debug"
    then some debug
    else if str_eq tp "silent"
    then some silent
    else none

-- Whether `print` prints an event at the package's level.
unfoldable pub printed : LogLevel → LogLevel → Bool
printed level debug = not (ltb (rank debug) (rank level))
printed level info = not (ltb (rank info) (rank level))
printed level warning = not (ltb (rank warning) (rank level))
printed level error = not (ltb (rank error) (rank level))
printed level l = false

pub record Event : Type 0 where
  pub log_level : LogLevel
  pub payload : String

-- `Event.Type`
unfoldable pub event_type : Event → String
event_type e = level_string e.log_level

-- What a call that logs does: it sends to `logCh`, it prints through logrus, it ends the program.
pub data Effect : Type 0 where
  send : Event → Effect
  write : LogLevel → String → Effect
  fatal : String → Effect

unfoldable pub print : LogLevel → Event → List Effect
unfolding printed
print level e = if printed level e.log_level then write e.log_level e.payload ∷ [] else []

-- The package's level, and the formatting.
module _ {A : Type 0} (level : LogLevel) (sprintf : String → A → String) where
  unfoldable pub new_log : LogLevel → String → A → Event
  new_log l format v = record { log_level = l; payload = sprintf format v }

  unfoldable pub infoln : String → A → List Effect
  unfolding new_log print
  infoln format v = let event = new_log info format v in send event ∷ print level event

  unfoldable pub warnln : String → A → List Effect
  unfolding new_log print
  warnln format v = let event = new_log warning format v in send event ∷ print level event

  unfoldable pub errorln : String → A → List Effect
  unfolding new_log print
  errorln format v = let event = new_log error format v in send event ∷ print level event

  unfoldable pub debugln : String → A → List Effect
  unfolding new_log print
  debugln format v = let event = new_log debug format v in send event ∷ print level event

  unfoldable pub fatalln : String → A → List Effect
  fatalln format v = fatal (sprintf format v) ∷ []

-- What a decoder leaves in the level that it is given, and its error. An error of the inner decoder
-- is dropped, so that the text is then the empty one.
module _ (l : LogLevel) where
  unfoldable pub unmarshal : Option LogLevel → LogLevel × Option String
  unmarshal none = (l, some "invalid mode")
  unmarshal (some level) = (level, none)

  unfoldable pub unmarshal_yaml : Option String → LogLevel × Option String
  unfolding unmarshal log_level_mapping
  unmarshal_yaml none = unmarshal (log_level_mapping "")
  unmarshal_yaml (some tp) = unmarshal (log_level_mapping tp)

  unfoldable pub unmarshal_json : Option String → LogLevel × Option String
  unfolding unmarshal log_level_mapping
  unmarshal_json none = unmarshal (log_level_mapping "")
  unmarshal_json (some tp) = unmarshal (log_level_mapping tp)

unfoldable pub marshal_yaml : LogLevel → String
unfolding level_string
marshal_yaml l = level_string l

unfoldable pub marshal_json {ℓ} : {J : Type ℓ} → (String → J) → LogLevel → J
unfolding level_string
marshal_json encode l = encode (level_string l)
