-- ===== src/Client/Route/Linux.antt =====
-- client/tun/route/setup_linux.go.
use cftun.Common.{
  Bool, true, false, Option, String, List, [], ◌∷◌, ◌++◌, get_or, map, if◌then◌else◌,
}
use cftun.Common.Text.{contains}
use cftun.Client.Route.{Command, exclusions, find_line, lines_of}

abbrev pub query : Bool → Command
query is6 =
    if is6
    then "ip" ∷ "-6" ∷ "route" ∷ "show" ∷ "default" ∷ []
    else "ip" ∷ "route" ∷ "show" ∷ "default" ∷ []

-- The gateway and the interface of the default route.
unfoldable pub get_default_gateway : (Command → Option String) → Bool → String × String
get_default_gateway run is6 =
    let parts = find_line "default via " 5 (lines_of (run (query is6))) in
    (get_or parts 2 "", get_or parts 4 "")

unfoldable pub configure_address : String → String → String → List Command
configure_address tun_name ipv4 ipv6 =
    ("ip" ∷ "tuntap" ∷ "add" ∷ "mode" ∷ "tun" ∷ "dev" ∷ tun_name ∷ [])
    ∷ ("ip" ∷ "addr" ∷ "add" ∷ ipv4 ∷ "dev" ∷ tun_name ∷ [])
    ∷ ("ip" ∷ "-6" ∷ "addr" ∷ "add" ∷ ipv6 ∷ "dev" ∷ tun_name ∷ [])
    ∷ ("ip" ∷ "link" ∷ "set" ∷ tun_name ∷ "up" ∷ [])
    ∷ []

unfoldable pub add_route : String → String → Command
add_route tun_name route =
    if contains b':' route
    then "ip" ∷ "-6" ∷ "route" ∷ "add" ∷ route ∷ "dev" ∷ tun_name ∷ []
    else "ip" ∷ "route" ∷ "add" ∷ route ∷ "dev" ∷ tun_name ∷ []

unfoldable pub exclude_route : String × String → String × String → String → Command
exclude_route (gateway4, iface4) (gateway6, iface6) route =
    if contains b':' route
    then "ip" ∷ "-6" ∷ "route" ∷ "add" ∷ route ∷ "via" ∷ gateway6 ∷ "dev" ∷ iface6 ∷ []
    else "ip" ∷ "route" ∷ "add" ∷ route ∷ "via" ∷ gateway4 ∷ "dev" ∷ iface4 ∷ []

unfoldable pub configure_route :
    (Command → Option String) → String → List String → List String → List Command
configure_route run tun_name routes ex_routes =
    map (add_route tun_name) routes
    ++ exclusions ex_routes (query false ∷ query true ∷ [])
        (exclude_route (get_default_gateway run false) (get_default_gateway run true))
