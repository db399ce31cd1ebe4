-- ===== src/Client/Stack/Plan.antt =====
-- The order of the calls, and where they stop.
use mathlib.Core.Path.{subst}
use cftun.Common.{
  ◌≡◌, refl, ap, sym, ◌∙◌, Option, none, some, String, List, [], ◌∷◌, ◌++◌, flatten, append_assoc,
}
use cftun.Client.Stack.{Call, Replies, Action, sure, attempt, nothing, proceed, and_then, each}

-- A call with the message that its error gets, or none where the error is not looked at.
abbrev pub Step : Type 0
Step = Call × Option String

abbrev pub Plan : Type 0
Plan = List Step

unfoldable pub make : Step → Action
make (call, none) = sure call
make (call, some message) = attempt call message

-- The calls of a plan, one after the other, up to the first that fails.
unfoldable pub follow : Plan → Action
follow [] = nothing
follow (s ∷ plan) = and_then (make s) (follow plan)

-- An option that makes the calls of a plan.
unfoldable pub Follows : Plan → Action → Type 0
Follows p a = (replies : Replies) (calls : List Call) → a replies calls ≡ follow p replies calls

proceed-and_then :
    (b c : Action) (replies : Replies) (r : List Call × Option String)
    → proceed c replies (proceed b replies r) ≡ proceed (and_then b c) replies r
unfolding proceed and_then
proceed-and_then b c replies (calls, none) = refl
proceed-and_then b c replies (calls, some m) = refl

proceed-nothing :
    (replies : Replies) (r : List Call × Option String) → proceed nothing replies r ≡ r
unfolding proceed nothing
proceed-nothing replies (calls, none) = refl
proceed-nothing replies (calls, some m) = refl

proceed-Follows :
    (b : Action) (q : Plan)
    → Follows q b
    → (replies : Replies) (r : List Call × Option String)
    → proceed b replies r ≡ proceed (follow q) replies r
unfolding proceed Follows
proceed-Follows b q h replies (calls, none) = h replies calls
proceed-Follows b q h replies (calls, some m) = refl

follow-append : (p q : Plan) → Follows (p ++ q) (and_then (follow p) (follow q))
unfolding Follows follow and_then proceed nothing
follow-append [] q replies calls = refl
follow-append (s ∷ p) q replies calls =
    proceed-and_then (follow p) (follow q) replies (make s replies calls)
    ∙ proceed-Follows _ (p ++ q) (follow-append p q) replies (make s replies calls)

pub and_then-Follows :
    (a b : Action) (p q : Plan) → Follows p a → Follows q b → Follows (p ++ q) (and_then a b)
unfolding Follows and_then
and_then-Follows a b p q ha hb replies calls =
    ap (proceed b replies) (ha replies calls)
    ∙ proceed-Follows b q hb replies (follow p replies calls)
    ∙ follow-append p q replies calls

make-Follows : (s : Step) → Follows (s ∷ []) (make s)
unfolding Follows follow and_then
make-Follows s replies calls = sym (proceed-nothing replies (make s replies calls))

pub sure-Follows : (c : Call) → Follows ((c, none) ∷ []) (sure c)
unfolding make
sure-Follows c = make-Follows (c, none)

pub attempt-Follows :
    (c : Call) (message : String) → Follows ((c, some message) ∷ []) (attempt c message)
unfolding make
attempt-Follows c message = make-Follows (c, some message)

pub nothing-Follows : Follows [] nothing
unfolding Follows follow
nothing-Follows replies calls = refl

pub last-Follows : (p : Plan) (a : Action) → Follows p a → Follows p (and_then a nothing)
unfolding Follows and_then
last-Follows p a h replies calls = proceed-nothing replies (a replies calls) ∙ h replies calls

-- A list of options, each with its plan.
pub data FollowsEach : List Plan → List Action → Type 0 where
  done : FollowsEach [] []
  also :
      {p : Plan} {a : Action} {ps : List Plan} {as' : List Action}
      → Follows p a
      → FollowsEach ps as'
      → FollowsEach (p ∷ ps) (a ∷ as')

pub each-Follows :
    {ps : List Plan} {acts : List Action} → FollowsEach ps acts → Follows (flatten ps) (each acts)
unfolding each flatten
each-Follows done = nothing-Follows
each-Follows (also h hs) = and_then-Follows _ _ _ _ h (each-Follows hs)

-- Options whose plans are given, and then some more.
pub append-Follows :
    {ps : List Plan} {xs : List Action} (ys : List Action) (q : Plan)
    → FollowsEach ps xs
    → Follows q (each ys)
    → Follows (flatten ps ++ q) (each (xs ++ ys))
unfolding each flatten
append-Follows ys q done k = k
append-Follows {ps = p ∷ ps} {xs = x ∷ xs} ys q (also h hs) k =
    subst (λ r. Follows r (and_then x (each (xs ++ ys)))) (sym (append_assoc p (flatten ps) q))
      (and_then-Follows _ _ _ _ h (append-Follows ys q hs k))
