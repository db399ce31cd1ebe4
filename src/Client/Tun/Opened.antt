-- ===== src/Client/Tun/Opened.antt =====
-- What a TUN device that starts is made of.
use cftun.Common.{
  ℕ, ◌+◌, ◌≡◌, Bool, true, false, if◌then◌else◌, Option, none, some, String, List, [], ◌∷◌, ◌++◌,
  length, All, ok, err, ◌⊎◌,
}
use cftun.Common.Int.{wrap}
use cftun.Common.Text.{◌<>◌, contains_text, is_empty}
use cftun.Client.Route.{Command}
use cftun.Client.Route.Linux as Linux
use cftun.Client.Route.Freebsd as Freebsd
use cftun.Client.Engine.{
  Url, Opening, open_tun, Event, start_process, create_stack, set_logger, set_interface, set_device,
  End, returned, exited, Outside, opened,
}
use cftun.Client.Tun.{Tun, mtu_or_default}

-- How a name is read as a URL: what net/url does with a plain word.
pub record IsPlain (o : Outside) (name : String) : Type 0 where
  pub no_driver : contains_text name "://" ≡ false
  pub url : Url
  pub parses : o.parse_url ("tun://" <> name) ≡ ok url
  pub host : url.host ≡ name
  pub scheme : o.to_lower url.scheme ≡ "tun"

-- The interface that sockets are bound to.
unfoldable bindings : Outside → String → List Event
bindings o name =
    if is_empty name
    then []
    else elim (o.interface' name) [ err e ↦ [] | ok found ↦ set_interface found.0 found.1 ∷ [] ]

-- What the engine does before there is a device.
abbrev pub is_preparing : Event → Bool
is_preparing (set_device d) = false
is_preparing create_stack = false
is_preparing e = true

abbrev pub Occurs : {A : Type 0} → A → List A → Type 0
Occurs x [] = ⊥
Occurs x (y ∷ ys) = (y ≡ x) ⊎ Occurs x ys

abbrev pub device_of : Tun → Opening
device_of t = open_tun t.name (wrap 32 (mtu_or_default t))

-- A start that has succeeded: the device is opened behind all preparations, which bind the sockets
-- where an interface is named, and nothing that can fail has failed.
pub record IsStarted (o : Outside) (t : Tun) (events : List Event) : Type 0 where
  pub before : List Event
  pub shape : events ≡ before ++ set_device (device_of t) ∷ create_stack ∷ []
  pub prepares : All (λ e. is_preparing e ≡ true) before
  pub processes : Occurs start_process before
  pub logs : Occurs (set_logger t.log_level) before
  pub binds :
      is_empty t.interface_name ≡ false
      → (found : String × ℕ) × (o.interface' t.interface_name ≡ ok found)
        × Occurs (set_interface found.0 found.1) before
  pub level : o.level t.log_level ≡ none
  pub opened : o.open' (device_of t) ≡ none
  pub stack : o.stack ≡ none

result_of : End → Option String
result_of (returned r) = r
result_of (exited e) = some e

-- The commands that set up a device and its routes all name it.
pub record OnDevice (t : Tun) (commands : List Command) : Type 0 where
  pub own : List Command
  pub others : List Command
  pub split : commands ≡ own ++ others
  pub many : length own ≡ 4 + length t.routes
  pub name_it : All (λ (c : Command). Occurs t.name c) own
  pub alone : t.ex_routes ≡ [] → others ≡ []

module _ (o : Outside) (t : Tun) (plain : IsPlain o t.name) where
  abbrev opening : List Event
  opening = start_process ∷ set_device (device_of t) ∷ create_stack ∷ []

  -- What a start without an error says of the system.
  abbrev Fine : Type 0
  Fine = (o.open' (device_of t) ≡ none) × (o.stack ≡ none)

  -- The binding, before the device.
  Bound : List Event → Type 0
  Bound events =
      (bs : List Event) × (events ≡ bs ++ opening)
      × All (λ e. is_preparing e ≡ true) bs
      × (is_empty t.interface_name ≡ false
          → (f : String × ℕ) × (o.interface' t.interface_name ≡ ok f)
            × Occurs (set_interface f.0 f.1) bs)
      × Fine
