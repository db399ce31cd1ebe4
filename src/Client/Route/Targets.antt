-- ===== src/Client/Route/Targets.antt =====
-- What the routes come to: their prefix lengths, their gateways, and the choice among default
-- routes.
use text.Mathlib.TextLemmas.{nil-append, cons-append}
use cftun.Common.{
  ℕ, suc, ◌+◌, ◌*◌, ◌==◌, ◌≤◌, ◌≡◌, refl, ap, sym, ◌∙◌, ◌⊎◌, inl, inr, Bool, true, false, Option,
  none, some, String, List, [], ◌∷◌, All, arith, if◌then◌else◌, Bool-cases,
}
use Prim.Native.Char.{code}
use cftun.Common.Text.{◌<>◌, contains}
use cftun.Common.Int.{ℤ, ◌≤ℤ◌, ltb_ℤ}
use cftun.Client.Route.{Command, target4, target6, lines_of}
use cftun.Client.Route.Linux as Linux
use cftun.Client.Route.Darwin as Darwin
use cftun.Client.Route.Windows as Windows
use cftun.Client.Route.Windows.{Best, row, better, scan, nothing_found, query, get_default_gateway}

module _ (parse_int : String → Option ℤ) (substr : String) where
  -- A row's metric is not below this one.
  abbrev pub NotBelow : ℤ → Option Best → Type 0
  NotBelow m none = Unit
  NotBelow m (some r) = m ≤ℤ r.metric

  better_le :
      (best : Best) (o : Option Best)
      → ((better best o).metric ≤ℤ best.metric) × NotBelow (better best o).metric o
  better_le best none = (omega arith, tt)
  better_le best (some r) = ground arith

  scan_le :
      (best : Best) (lines : List String) → (scan parse_int substr best lines).metric ≤ℤ best.metric
  unfolding scan
  scan_le best [] = omega arith
  scan_le best (line ∷ rest) = omega (
    arith,
    scan_le (better best (row parse_int substr line)) rest,
    (better_le best (row parse_int substr line)).0,
  )

  -- Some line's row.
  abbrev pub Among : Best → List String → Type 0
  Among best [] = ⊥
  Among best (line ∷ rest) = (row parse_int substr line ≡ some best) ⊎ Among best rest

  NotBelow-le : (m n : ℤ) (o : Option Best) → m ≤ℤ n → NotBelow n o → NotBelow m o
  NotBelow-le m n none le h = tt
  NotBelow-le m n (some r) le h = omega arith

  scan-NotBelow :
      (best : Best) (lines : List String)
      → All
          (λ line. NotBelow (scan parse_int substr best lines).metric (row parse_int substr line))
          lines
  unfolding scan
  scan-NotBelow best [] = tt
  scan-NotBelow best (line ∷ rest) =
      let next = better best (row parse_int substr line) in
      (
        NotBelow-le (scan parse_int substr next rest).metric next.metric (row parse_int substr line)
            (scan_le next rest) (better_le best (row parse_int substr line)).1,
        scan-NotBelow next rest,
      )

  better_cases :
      (best : Best) (o : Option Best) → (better best o ≡ best) ⊎ (o ≡ some (better best o))
  better_cases best none = inl refl
  better_cases best (some r) = elim (Bool-cases (ltb_ℤ r.metric best.metric)) [
    | inl less ↦ rw less (inr refl)
    | inr more ↦ rw more (inl refl)
  ]

  scan-Among :
      (best : Best) (lines : List String)
      → (scan parse_int substr best lines ≡ best) ⊎ Among (scan parse_int substr best lines) lines
  unfolding scan
  scan-Among best [] = inl refl
  scan-Among best (line ∷ rest) =
      let next = better best (row parse_int substr line) in
      elim (scan-Among next rest) [
        | inr later ↦ inr (inr later)
        | inl now ↦ elim (better_cases best (row parse_int substr line)) [
          | inl same ↦ inl (now ∙ same)
          | inr found ↦ inr (inl (found ∙ ap some (sym now)))
        ]
      ]

abbrev default_route : Bool → String
default_route is6 = if is6 then "::/0" else "0.0.0.0/0"

-- On Windows the gateway is that of a default route of the asked family that the system printed,
-- with a metric that no other's is below, or there is none where all metrics are 65536 or more.
pub get_default_gateway-Among :
    (parse_int : String → Option ℤ) (run : Command → Option String) (is6 : Bool)
    → let best = get_default_gateway parse_int run is6 in
      let lines = lines_of (run (query is6)) in
      let substr = default_route is6 in
      ((best ≡ nothing_found) ⊎ Among parse_int substr best lines)
      × All (λ line. NotBelow parse_int substr best.metric (row parse_int substr line)) lines
unfolding get_default_gateway
get_default_gateway-Among parse_int run is6 =
    let lines = lines_of (run (query is6)) in
    (
      scan-Among parse_int (default_route is6) nothing_found lines,
      scan-NotBelow parse_int (default_route is6) nothing_found lines,
    )

-- The prefix lengths that a target names.
unfoldable pub slashes : String → ℕ
slashes String.[] = 0
slashes (String.◌∷◌ c s) = if code c == b'/' then suc (slashes s) else slashes s

slashes-append : (s t : String) → slashes (s <> t) ≡ slashes s + slashes t
unfolding slashes
slashes-append String.[] t = rw (nil-append t) (omega arith)
slashes-append (String.◌∷◌ c s) t = rw (cons-append c s t) (ground (arith, slashes-append s t))

contains-slashes : (s : String) → contains b'/' s ≡ (if slashes s == 0 then false else true)
unfolding contains slashes
contains-slashes String.[] = refl
contains-slashes (String.◌∷◌ c s) = ground (arith, contains-slashes s)

one_slash : (slashes "/128" ≡ 1) × (slashes "/32" ≡ 1)
unfolding slashes
one_slash = (refl, refl)

-- The targets of a route with one prefix length at most.
slashes-target :
    (route : String)
    → slashes route ≤ 1
    → (slashes (target6 route) ≡ 1)
      × (slashes (target4 route) ≡ 1)
      × (slashes (Darwin.included4 route) ≡ 2 * slashes route)
unfolding target6 target4 Darwin.included4
slashes-target route h =
    let has = contains-slashes route in
    let add6 = slashes-append route "/128" in
    let add4 = slashes-append route "/32" in
    (
      ground (arith, has, one_slash.0, add6),
      ground (arith, has, one_slash.1, add4),
      ground (arith, has, one_slash.1, add4),
    )

-- The prefix lengths that the words of a command name.
unfoldable pub slashes_of : Command → ℕ
slashes_of [] = 0
slashes_of (word ∷ words) = slashes word + slashes_of words

-- For a route with one prefix length at most, where no interface and no address in the command has
-- any: a command that adds or excludes it has as many as the route on Linux, which passes it
-- unchanged, and exactly one on Windows and on Darwin, but for an included IPv4 route on Darwin: that
-- command has two where the route has one, and none where it has none.
pub slashes_of-commands :
    (route a b c d : String)
    → slashes route ≤ 1
    → slashes_of (a ∷ b ∷ c ∷ d ∷ []) ≡ 0
    → (slashes_of (Linux.add_route a route) ≡ slashes route)
      × (slashes_of (Linux.exclude_route (a, b) (c, d) route) ≡ slashes route)
      × (slashes_of (Windows.add_route (a, b) (c, d) route) ≡ 1)
      × (slashes_of (Darwin.exclude_route a b route) ≡ 1)
      × (slashes_of (Darwin.add_route a b route)
          ≡ (if contains b':' route then 1 else 2 * slashes route))
unfolding slashes_of slashes Linux.add_route Linux.exclude_route Windows.add_route
    Darwin.exclude_route Darwin.add_route
slashes_of-commands route a b c d h bare =
    let t = slashes-target route h in
    elim (Bool-cases (contains b':' route)) [
      | inl six ↦
          rw six
            (omega arith, omega arith, omega (arith, t.0), omega (arith, t.0), omega (arith, t.0))
      | inr four ↦
          rw four
            (omega arith, omega arith, omega (arith, t.1), omega (arith, t.1), omega (arith, t.2))
    ]
