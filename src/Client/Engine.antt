-- ===== src/Client/Engine.antt =====
-- client/tun/engine/engine.go and client/tun/engine/parse.go, with
-- client/tun/core/device/fdbased/fd_unix.go: how the stack of a TUN device is started and stopped.
-- URLs, interfaces, devices and the log are parameters.
pub mod Windows
use cftun.Common.{
  ℕ, Bool, not, ◌==◌, if◌then◌else◌, str_eq, Option, none, some, String, List, [], ◌∷◌, ◌++◌,
  Result, ok, err,
}
use cftun.Common.Int.{ℤ, wrap}
use cftun.Common.Text.{◌<>◌, contains_text, is_empty}

-- What of a `url.URL` is looked at.
pub record Url : Type 0 where
  pub scheme : String
  pub host : String

-- The device that is opened.
pub data Opening : Type 0 where
  open_fd : ℤ → ℕ → ℕ → Opening
  open_tun : String → ℕ → Opening

abbrev pub default_mtu : ℕ
default_mtu = 1500

-- `fdbased.Open` up to the system's `open`; `atoi` is strconv.Atoi.
unfoldable pub fd_open : (String → Option ℤ) → String → ℕ → ℕ → Result String Opening
fd_open atoi name mtu offset = elim (atoi name) [
  | none ↦ err ("cannot open fd: " <> name)
  | some fd ↦ ok (open_fd fd (if mtu == 0 then default_mtu else mtu) offset)
]

unfoldable pub parse_fd : (String → Option ℤ) → String → Url → ℕ → Result String Opening
unfolding fd_open
parse_fd atoi goos u mtu = fd_open atoi u.host mtu (if str_eq goos "ios" then 4 else 0)

-- `parseTUN` of parse_unix.go.
unfoldable pub parse_tun : Url → ℕ → Result String Opening
parse_tun u mtu = ok (open_tun u.host mtu)

unfoldable pub with_driver : String → String
unfolding contains_text
with_driver s = if not (contains_text s "://") then "tun://" <> s else s

unfoldable pub open_url : (String → Option ℤ) → String → String → Url → ℕ → Result String Opening
unfolding parse_fd parse_tun
open_url atoi goos driver u mtu =
    if str_eq driver "fd"
    then parse_fd atoi goos u mtu
    else if str_eq driver "tun"
    then parse_tun u mtu
    else err ("unsupported driver: " <> driver)

-- What the start does, in its order.
pub data Event : Type 0 where
  set_argo start_process create_stack : Event
  set_relay_buffer_size : ℤ → Event
  set_logger : String → Event
  set_interface : String → ℕ → Event
  set_device : Opening → Event

-- How `HandleNetStack` ends: with its error, or with the program, by `log.Fatalf`.
pub data End : Type 0 where
  returned : Option String → End
  exited : String → End

-- What is outside. `level` is `log.ParseLevel`, with the text of its error; `interface` finds the
-- name and the index of an interface; `open` opens a device; `stack` is the error of
-- `core.CreateStack`.
pub record Outside : Type 0 where
  pub goos : String
  pub level : String → Option String
  pub interface' : String → Result String (String × ℕ)
  pub parse_url : String → Result String Url
  pub to_lower : String → String
  pub atoi : String → Option ℤ
  pub open' : Opening → Option String
  pub stack : Option String

module _ (o : Outside) where
  unfoldable pub open_device : Opening → Option String → Result String Opening
  open_device d (some e) = err e
  open_device d none = ok d

  unfoldable pub opened : Result String Opening → Result String Opening
  unfolding open_device
  opened (err e) = err e
  opened (ok d) = open_device d (o.open' d)

  unfoldable pub parsed : ℕ → Result String Url → Result String Opening
  unfolding open_url
  parsed mtu (err e) = err e
  parsed mtu (ok u) = open_url o.atoi o.goos (o.to_lower u.scheme) u mtu

  unfoldable pub parse_device : String → ℕ → Result String Opening
  unfolding with_driver parsed opened
  parse_device s mtu = opened (parsed mtu (o.parse_url (with_driver s)))

  -- The part from `transport.ProcessAsync()` on.
  unfoldable pub with_device : Result String Opening → List Event × End
  with_device (err e) = (start_process ∷ [], exited e)
  with_device (ok d) = (start_process ∷ set_device d ∷ create_stack ∷ [], returned o.stack)

  unfoldable pub prefix : Event → List Event × End → List Event × End
  prefix e (events, end) = (e ∷ events, end)

  unfoldable pub bound : String → ℕ → Result String (String × ℕ) → List Event × End
  unfolding parse_device with_device prefix
  bound device mtu (err e) = ([], returned (some e))
  bound device mtu (ok (name, index)) =
      prefix (set_interface name index) (with_device (parse_device device mtu))

  unfoldable pub with_interface : String → String → ℕ → List Event × End
  unfolding bound
  with_interface device name mtu =
      if not (is_empty name)
      then bound device mtu (o.interface' name)
      else with_device (parse_device device mtu)

  unfoldable pub with_level : ℤ → String → List Event × End → Option String → List Event × End
  with_level mtu log_level later (some e) =
      (set_argo ∷ set_relay_buffer_size mtu ∷ [], returned (some e))
  with_level mtu log_level (events, end) none =
      (set_argo ∷ set_relay_buffer_size mtu ∷ set_logger log_level ∷ events, end)

  unfoldable pub handle_net_stack : String → String → String → ℤ → List Event × End
  unfolding with_interface with_level wrap
  handle_net_stack device name log_level mtu =
      with_level mtu log_level (with_interface device name (wrap 32 mtu)) (o.level log_level)

-- What `stop` closes, by what of the three is set; the stack is waited for.
pub data Closing : Type 0 where
  close_device close_argo close_stack wait_stack : Closing

unfoldable pub stop : Bool → Bool → Bool → List Closing
stop device argo stack =
    (if device then close_device ∷ [] else [])
    ++ (if argo then close_argo ∷ [] else [])
    ++ (if stack then close_stack ∷ wait_stack ∷ [] else [])

-- strings.TrimSpace and the parser of addresses are parameters.
module _ {A : Type 0} (split : String → List String) (trim : String → String)
    (parse : String → Result String A) (is_multicast : A → Bool) (text : A → String) where
  unfoldable pub group : A → Result String (List A) → Result String (List A)
  group addr rest =
      if not (is_multicast addr)
      then err ("invalid multicast IP: " <> text addr)
      else elim rest [ err e ↦ err e | ok gs ↦ ok (addr ∷ gs) ]

  unfoldable pub groups : List String → Result String (List A)
  unfolding group
  groups [] = ok []
  groups (ip ∷ ips) =
      let rest = groups ips in
      if is_empty (trim ip)
      then rest
      else elim (parse (trim ip)) [ err e ↦ err e | ok addr ↦ group addr rest ]

  unfoldable pub parse_multicast_groups : String → Result String (List A)
  unfolding groups
  parse_multicast_groups s = groups (split s)
