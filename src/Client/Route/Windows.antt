-- ===== src/Client/Route/Windows.antt =====
-- client/tun/route/setup_windows.go. `strconv.ParseInt` is a parameter.
use cftun.Common.{
  Bool, true, false, Option, none, some, String, List, [], ◌∷◌, ◌++◌, get_or, length, map, leb,
  if◌then◌else◌,
}
use cftun.Common.Int.{ℤ, pos, ltb_ℤ}
use cftun.Common.Text.{◌<>◌, contains, contains_text, fields}
use cftun.Client.Route.{Command, exclusions, lines_of, target4, target6}

abbrev pub query : Bool → Command
query is6 = "netsh" ∷ "interface" ∷ (if is6 then "ipv6" else "ipv4") ∷ "show" ∷ "route" ∷ []

-- The least metric so far, with the index and the gateway of its row.
pub record Best : Type 0 where
  pub metric : ℤ
  pub idx : String
  pub gateway : String

abbrev pub nothing_found : Best
nothing_found = record { metric = pos 65536; idx = ""; gateway = "" }

abbrev pub better : Best → Option Best → Best
better best none = best
better best (some r) = if ltb_ℤ r.metric best.metric then r else best

module _ (parse_int : String → Option ℤ) where
  -- A row of the default route, with its metric where that is a number.
  unfoldable pub row : String → String → Option Best
  row substr line =
      let parts = fields line in
      if contains_text line substr
      then (if leb 6 (length parts)
          then elim (parse_int (get_or parts 2 "")) [
            | none ↦ none
            | some m ↦
                some (record { metric = m; idx = get_or parts 4 ""; gateway = get_or parts 5 "" })
          ]
          else none)
      else none

  unfoldable pub scan : String → Best → List String → Best
  scan substr best [] = best
  scan substr best (line ∷ rest) = scan substr (better best (row substr line)) rest

  unfoldable pub get_default_gateway : (Command → Option String) → Bool → Best
  get_default_gateway run is6 =
      scan (if is6 then "::/0" else "0.0.0.0/0") nothing_found (lines_of (run (query is6)))

unfoldable pub configure_address : String → String → String → List Command
configure_address tun_name ipv4 ipv6 =
    ("netsh" ∷ "interface" ∷ "ipv4" ∷ "set" ∷ "address" ∷ tun_name ∷ "static" ∷ ipv4 ∷ [])
    ∷ ("netsh" ∷ "interface" ∷ "ipv6" ∷ "add" ∷ "address" ∷ tun_name ∷ ipv6 ∷ [])
    ∷ ("netsh"
        ∷ "interface"
        ∷ "ipv4"
        ∷ "set"
        ∷ "dnsservers"
        ∷ ("name=" <> tun_name)
        ∷ "static"
        ∷ "address=8.8.8.8"
        ∷ "register=none"
        ∷ "validate=no"
        ∷ [])
    ∷ []

-- A route over an interface and a gateway, of its own family.
unfoldable pub add_route : String × String → String × String → String → Command
add_route (idx4, gateway4) (idx6, gateway6) route =
    if contains b':' route
    then "netsh"
      ∷ "interface"
      ∷ "ipv6"
      ∷ "add"
      ∷ "route"
      ∷ target6 route
      ∷ idx6
      ∷ gateway6
      ∷ "metric=1"
      ∷ []
    else "netsh"
      ∷ "interface"
      ∷ "ipv4"
      ∷ "add"
      ∷ "route"
      ∷ target4 route
      ∷ idx4
      ∷ gateway4
      ∷ "metric=1"
      ∷ []

abbrev hop : Best → String × String
hop b = (b.idx, b.gateway)

unfoldable pub configure_route :
    (String → Option ℤ)
    → (Command → Option String)
    → String
    → String
    → String
    → List String
    → List String
    → List Command
configure_route parse_int run tun_name ipv4 ipv6 routes ex_routes =
    map (add_route (tun_name, ipv4) (tun_name, ipv6)) routes
    ++ exclusions ex_routes (query false ∷ query true ∷ []) (
        add_route (hop (get_default_gateway parse_int run false))
          (hop (get_default_gateway parse_int run true)))
