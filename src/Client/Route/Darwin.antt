-- ===== src/Client/Route/Darwin.antt =====
-- client/tun/route/setup_darwin.go.
use cftun.Common.{Bool, false, Option, String, List, [], ◌∷◌, ◌++◌, get_or, map, if◌then◌else◌}
use cftun.Common.Text.{◌<>◌, contains}
use cftun.Client.Route.{Command, exclusions, find_line, lines_of, target4, target6}

abbrev pub query : Bool → Command
query is6 = "netstat" ∷ "-rn" ∷ "-f" ∷ (if is6 then "inet6" else "inet") ∷ []

unfoldable pub get_default_gateway : (Command → Option String) → Bool → String
get_default_gateway run is6 = get_or (find_line "default" 2 (lines_of (run (query is6)))) 1 ""

unfoldable pub configure_address : String → String → String → List Command
configure_address tun_name ipv4 ipv6 =
    ("sudo" ∷ "ifconfig" ∷ tun_name ∷ ipv4 ∷ ipv4 ∷ "up" ∷ [])
    ∷ ("sudo" ∷ "ifconfig" ∷ tun_name ∷ "inet6" ∷ ipv6 ∷ "up" ∷ [])
    ∷ []

-- The target of an IPv4 route: the suffix is added where there is a prefix length already.
unfoldable pub included4 : String → String
included4 route = if contains b'/' route then route <> "/32" else route

unfoldable pub add_route : String → String → String → Command
add_route ipv4 ipv6 route =
    if contains b':' route
    then "sudo" ∷ "route" ∷ "-inet6" ∷ "add" ∷ "-net" ∷ target6 route ∷ ipv6 ∷ []
    else "sudo" ∷ "route" ∷ "add" ∷ "-net" ∷ included4 route ∷ ipv4 ∷ []

unfoldable pub exclude_route : String → String → String → Command
exclude_route gateway4 gateway6 route =
    if contains b':' route
    then "sudo" ∷ "route" ∷ "-inet6" ∷ "add" ∷ "-net" ∷ target6 route ∷ gateway6 ∷ []
    else "sudo" ∷ "route" ∷ "add" ∷ "-net" ∷ target4 route ∷ gateway4 ∷ []

-- Both gateways are the IPv4 one.
unfoldable pub configure_route :
    (Command → Option String) → String → String → List String → List String → List Command
configure_route run ipv4 ipv6 routes ex_routes =
    map (add_route ipv4 ipv6) routes
    ++ exclusions ex_routes (query false ∷ query false ∷ [])
        (exclude_route (get_default_gateway run false) (get_default_gateway run false))
