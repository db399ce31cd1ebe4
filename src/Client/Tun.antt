-- ===== src/Client/Tun.antt =====
-- client/tun.go, and client/tun/route/setup.go: the TUN device of the client.
pub mod Opened
use cftun.Common.{
  ℕ, zero, suc, Bool, not, if◌then◌else◌, str_eq, Option, none, some, String, List, [], ◌∷◌, ◌++◌,
  Result, ok, err,
}
use cftun.Common.Int.{ℤ, pos, negsuc}
use cftun.Common.Text.{is_empty}
use cftun.Client.Route.{Command}
use cftun.Client.Route.Linux as Linux
use cftun.Client.Route.Darwin as Darwin
use cftun.Client.Route.Windows as Windows
use cftun.Client.Route.Freebsd as Freebsd
use cftun.Client.Engine.{Event, End, returned, exited, Outside, handle_net_stack, Closing, stop}

pub record Tun : Type 0 where
  pub enable : Bool
  pub name : String
  pub interface_name : String
  pub log_level : String
  pub routes : List String
  pub ex_routes : List String
  pub ipv4 : String
  pub ipv6 : String
  pub mtu : ℤ

-- `goos` is runtime.GOOS.
unfoldable pub ipv4_or_default : String → Tun → String
ipv4_or_default goos t =
    if not (is_empty t.ipv4)
    then t.ipv4
    else if str_eq goos "windows"
    then "192.168.123.1"
    else if str_eq goos "darwin"
    then "192.168.123.1"
    else "198.18.0.1"

unfoldable pub ipv6_or_default : Tun → String
ipv6_or_default t = if not (is_empty t.ipv6) then t.ipv6 else "fd12:3456:789a::1"

unfoldable pub default_mtu : ℤ → ℤ
default_mtu (pos zero) = pos 1280
default_mtu n = n

unfoldable pub mtu_or_default : Tun → ℤ
unfolding default_mtu
mtu_or_default t = default_mtu t.mtu

-- `ConfigureTun` with the file of each system that the package is built for. `run` is what the
-- commands that list routes print, and `parse_int` strconv.ParseInt.
unfoldable pub configure_tun :
    (String → Option ℤ)
    → (Command → Option String)
    → String
    → String
    → String
    → String
    → List String
    → List String
    → List Command
configure_tun parse_int run goos name ipv4 ipv6 routes ex_routes =
    if str_eq goos "windows"
    then Windows.configure_address name ipv4 ipv6
      ++ Windows.configure_route parse_int run name ipv4 ipv6 routes ex_routes
    else if str_eq goos "darwin"
    then Darwin.configure_address name ipv4 ipv6
      ++ Darwin.configure_route run ipv4 ipv6 routes ex_routes
    else if str_eq goos "freebsd"
    then Freebsd.configure_address name ipv4 ipv6
      ++ Freebsd.configure_route name ipv4 ipv6 routes ex_routes
    else Linux.configure_address name ipv4 ipv6 ++ Linux.configure_route run name routes ex_routes

-- The events of the engine and the commands, or the text with which the program ends.
unfoldable pub configured :
    List Command → List Event × End → Result String (List Event × List Command)
configured commands (events, exited e) = err e
configured commands (events, returned (some e)) = err e
configured commands (events, returned none) = ok (events, commands)

unfoldable pub run :
    Outside
    → (String → Option ℤ)
    → (Command → Option String)
    → Tun
    → Result String (List Event × List Command)
unfolding configured configure_tun ipv4_or_default ipv6_or_default mtu_or_default
run o parse_int print t =
    configured
      (configure_tun parse_int print o.goos t.name (ipv4_or_default o.goos t) (ipv6_or_default t)
        t.routes t.ex_routes)
      (handle_net_stack o t.name t.interface_name t.log_level (mtu_or_default t))

-- `DeleteTunDevice`, with which of the engine's three parts are set.
unfoldable pub delete_tun_device :
    String → Bool → Bool → Bool → String → List Closing × List Command
delete_tun_device goos device argo stack tun_name = (
  stop device argo stack,
  if not (str_eq goos "linux")
      then []
      else ("ip" ∷ "link" ∷ "set" ∷ tun_name ∷ "down" ∷ [])
        ∷ ("ip" ∷ "tuntap" ∷ "del" ∷ tun_name ∷ "mode" ∷ "tun" ∷ [])
        ∷ [],
)
