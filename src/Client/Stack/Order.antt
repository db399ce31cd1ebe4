-- ===== src/Client/Stack/Order.antt =====
-- client/tun/core/stack.go: the handlers are set before the NIC is made.
use mathlib.Core.Option.{bind}
use mathlib.Core.Path.{fun_ext}
use cftun.Common.{
  ℕ, ◌≡◌, refl, ap, sym, ◌∙◌, Bool, true, false, Bool-cases, Option, none, some, List, [], ◌∷◌,
  ◌++◌, flatten, inl, inr, if◌then◌else◌,
}
use cftun.Client.Metadata.{IpAddr, invalid, four, six}
use cftun.Client.Stack.{Transport, tcp, udp, Call, set_handler, create_nic, Replies}
use cftun.Client.Stack.Plan.{Plan, FollowsEach}
use cftun.Client.Stack.Options.{TcpDefaults}
use cftun.Client.Stack.Create.{Config, create_stack}
use cftun.Client.Stack.Steps.{default_steps, join_steps, multicast_steps, nic_steps, all_steps}
use cftun.Client.Stack.Outcome.{calls_of, calls_of-append, Outcome-prefix, create_stack-Outcome}

-- What of a call matters to the order.
pub data Role : Type 0 where
  handler : Transport → Role
  nic neither : Role

unfoldable pub role : Call → Role
role (set_handler p) = handler p
role (create_nic n) = nic
role c = neither

-- The handlers set so far, TCP and UDP, by which a NIC is let in.
unfoldable pub admit : Bool × Bool → Role → Option (Bool × Bool)
admit (t, u) (handler tcp) = some (true, u)
admit (t, u) (handler udp) = some (t, true)
admit (t, u) nic = if t then (if u then some (t, u) else none) else none
admit (t, u) neither = some (t, u)

unfoldable pub scan : Bool × Bool → List Call → Option (Bool × Bool)
scan s [] = some s
scan s (c ∷ cs) = bind (admit s (role c)) (λ s'. scan s' cs)

-- No NIC is made before both handlers are set.
pub HandlersFirst : List Call → Type 0
HandlersFirst calls = (s : Bool × Bool) × (scan (false, false) calls ≡ some s)

bind_assoc :
    (o : Option (Bool × Bool)) (f g : Bool × Bool → Option (Bool × Bool))
    → bind (bind o f) g ≡ bind o (λ s. bind (f s) g)
unfolding bind
bind_assoc none f g = refl
bind_assoc (some s) f g = refl

scan-append :
    (s : Bool × Bool) (xs ys : List Call) → scan s (xs ++ ys) ≡ bind (scan s xs) (λ s'. scan s' ys)
unfolding scan bind
scan-append s [] ys = refl
scan-append s (c ∷ xs) ys =
    ap (bind (admit s (role c))) (fun_ext (λ s'. scan-append s' xs ys))
    ∙ sym (bind_assoc (admit s (role c)) _ _)

bind-some :
    (o : Option (Bool × Bool)) (f : Bool × Bool → Option (Bool × Bool)) (r : Bool × Bool)
    → bind o f ≡ some r
    → (s : Bool × Bool) × (o ≡ some s)
unfolding bind
bind-some none f r e = cc
bind-some (some s) f r e = (s, refl)

scan-prefix :
    (s r : Bool × Bool) (xs ys : List Call)
    → scan s (xs ++ ys) ≡ some r
    → (s' : Bool × Bool) × (scan s xs ≡ some s')
scan-prefix s r xs ys e = bind-some (scan s xs) _ r (sym (scan-append s xs ys) ∙ e)

unfoldable pub is_nic : Role → Bool
is_nic (handler p) = false
is_nic nic = true
is_nic neither = false

-- Calls that make no NIC.
unfoldable pub no_nic : List Call → Bool
no_nic [] = true
no_nic (c ∷ cs) = if is_nic (role c) then false else no_nic cs

admit-other :
    (s : Bool × Bool) (r : Role) → is_nic r ≡ false → (s' : Bool × Bool) × (admit s r ≡ some s')
unfolding admit is_nic
admit-other (t, u) (handler tcp) h = ((true, u), refl)
admit-other (t, u) (handler udp) h = ((t, true), refl)
admit-other (t, u) nic h = cc
admit-other (t, u) neither h = ((t, u), refl)

no_nic-scan :
    (s : Bool × Bool) (cs : List Call)
    → no_nic cs ≡ true
    → (s' : Bool × Bool) × (scan s cs ≡ some s')
unfolding no_nic scan bind
no_nic-scan s [] h = (s, refl)
no_nic-scan s (c ∷ cs) h = elim (Bool-cases (is_nic (role c))) [
  | inl t ↦ cc
  | inr f ↦
      let (s', e) = admit-other s (role c) f in
      let (s2, e2) =
        no_nic-scan s' cs (sym (ap (λ (b : Bool). if b then false else no_nic cs) f) ∙ h) in
      (s2, ap (λ o. bind o (λ s3. scan s3 cs)) e ∙ e2)
]

scan-good :
    (s s' : Bool × Bool) (xs ys : List Call)
    → scan s xs ≡ some s'
    → ((r : Bool × Bool) × (scan s' ys ≡ some r))
    → (r : Bool × Bool) × (scan s (xs ++ ys) ≡ some r)
unfolding bind
scan-good s s' xs ys e (r, h) = (r, scan-append s xs ys ∙ ap (λ o. bind o (λ v. scan v ys)) e ∙ h)

join-no_nic : (n : ℕ) (gs : List IpAddr) → no_nic (calls_of (join_steps n gs)) ≡ true
unfolding no_nic join_steps role is_nic
join-no_nic n [] = refl
join-no_nic n (invalid ∷ gs) = join-no_nic n gs
join-no_nic n (four octets ∷ gs) = join-no_nic n gs
join-no_nic n (six octets ∷ gs) = join-no_nic n gs

multicast-no_nic : (n : ℕ) (gs : List IpAddr) → no_nic (calls_of (multicast_steps n gs)) ≡ true
unfolding no_nic multicast_steps role is_nic
multicast-no_nic n [] = refl
multicast-no_nic n (g ∷ gs) = join-no_nic n (g ∷ gs)

nic_steps-scan :
    (s : Bool × Bool) (n : ℕ) (gs : List IpAddr)
    → (r : Bool × Bool) × (scan s (calls_of (nic_steps n gs)) ≡ some r)
unfolding scan nic_steps role admit bind
nic_steps-scan (t, u) n gs =
    no_nic-scan (true, true) (calls_of (multicast_steps n gs)) (multicast-no_nic n gs)

default-no_nic : (d : TcpDefaults) → no_nic (calls_of (default_steps d)) ≡ true
unfolding no_nic default_steps role is_nic
default-no_nic d = refl

all_steps-HandlersFirst :
    (d : TcpDefaults) (nic : ℕ) (plans : List Plan) (gs : List IpAddr)
    → no_nic (calls_of (flatten plans)) ≡ true
    → HandlersFirst (calls_of (all_steps d plans nic gs))
unfolding HandlersFirst
all_steps-HandlersFirst d n plans gs h =
    let (s1, e1) = no_nic-scan (false, false) (calls_of (default_steps d)) (default-no_nic d) in
    let (s2, e2) = no_nic-scan s1 (calls_of (flatten plans)) h in
    let split =
      calls_of-append (default_steps d) (flatten plans ++ nic_steps n gs)
      ∙ ap (λ (v : List Call). calls_of (default_steps d) ++ v)
          (calls_of-append (flatten plans) (nic_steps n gs)) in
    let (r, e3) =
      scan-good (false, false) s1 (calls_of (default_steps d))
        (calls_of (flatten plans) ++ calls_of (nic_steps n gs)) e1
        (scan-good s1 s2 (calls_of (flatten plans)) (calls_of (nic_steps n gs)) e2
          (nic_steps-scan s2 n gs)) in
    (r, ap (scan (false, false)) split ∙ e3)

-- Whatever the stack answers, and whatever options the configuration has that make no NIC: in the
-- calls that CreateStack has made when it returns, a NIC is made only after the handlers of both
-- protocols have been set.
pub create_stack-HandlersFirst :
    (d : TcpDefaults) (nic : ℕ) (cfg : Config) (plans : List Plan) (replies : Replies)
    → FollowsEach plans cfg.options
    → no_nic (calls_of (flatten plans)) ≡ true
    → HandlersFirst ((create_stack d nic cfg replies []).0)
unfolding HandlersFirst
create_stack-HandlersFirst d n cfg plans replies h k =
    let (rest, e) = Outcome-prefix replies _ _ (create_stack-Outcome d n cfg plans replies h) in
    let (r, good) = all_steps-HandlersFirst d n plans cfg.multicast_groups k in
    scan-prefix (false, false) r _ rest (ap (scan (false, false)) (sym e) ∙ good)
