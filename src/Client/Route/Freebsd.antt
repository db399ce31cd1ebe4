-- ===== src/Client/Route/Freebsd.antt =====
-- client/tun/route/setup_freebsd.go. The functions that address the device and set the routes are
-- not implemented there, and run no command.
use cftun.Common.{
  ◌≡◌, refl, Bool, true, false, Option, none, some, String, List, [], ◌∷◌, get_or, if◌then◌else◌,
}
use cftun.Client.Route.{Command, find_line, lines_of}
use cftun.Client.Route.Darwin as Darwin

abbrev pub query : Bool → Command
query is6 = "netstat" ∷ "-rn" ∷ "-f" ∷ (if is6 then "inet6" else "inet") ∷ []

-- The second word; a line that `find_line` finds has one.
unfoldable gateway_of : List String → Option String
gateway_of [] = none
gateway_of (word ∷ []) = none
gateway_of (word ∷ gateway ∷ rest) = some gateway

-- `none` is an error: the command fails, or prints no such line.
unfoldable pub get_default_gateway : (Command → Option String) → Bool → Option String
unfolding gateway_of
get_default_gateway run is6 = gateway_of (find_line "default" 2 (lines_of (run (query is6))))

unfoldable pub get_ipv4_default_gateway : (Command → Option String) → Option String
get_ipv4_default_gateway run = get_default_gateway run false

unfoldable pub get_ipv6_default_gateway : (Command → Option String) → Option String
get_ipv6_default_gateway run = get_default_gateway run true

unfoldable pub configure_address : String → String → String → List Command
configure_address tun_name ipv4 ipv6 = []

unfoldable pub configure_route : String → String → String → List String → List String → List Command
configure_route tun_name ipv4 ipv6 routes ex_routes = []

abbrev or_empty : Option String → String
or_empty none = ""
or_empty (some s) = s

gateway_of-get_or : (words : List String) → or_empty (gateway_of words) ≡ get_or words 1 ""
unfolding gateway_of
gateway_of-get_or [] = refl
gateway_of-get_or (word ∷ []) = refl
gateway_of-get_or (word ∷ gateway ∷ rest) = refl

-- FreeBSD and macOS read the same gateway from what netstat prints; macOS takes the error for an
-- empty address.
pub get_default_gateway-Darwin :
    (run : Command → Option String) (is6 : Bool)
    → or_empty (get_default_gateway run is6) ≡ Darwin.get_default_gateway run is6
unfolding get_default_gateway Darwin.get_default_gateway
get_default_gateway-Darwin run is6 =
    gateway_of-get_or (find_line "default" 2 (lines_of (run (query is6))))
