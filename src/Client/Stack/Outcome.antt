-- ===== src/Client/Stack/Outcome.antt =====
-- Where the set-up of the stack stops, and with which message.
use mathlib.Core.Path.{subst}
use cftun.Common.Text.{◌<>◌}
use cftun.Common.{
  ℕ, ◌≡◌, refl, ap, sym, ◌∙◌, Option-cases, Option, none, some, String, List, [], ◌∷◌, ◌++◌, map,
  append_assoc, append-nil, inl, inr,
}
use cftun.Client.Stack.{Call, Replies, sure, attempt, nothing, proceed, and_then}
use cftun.Client.Stack.Plan.{Step, Plan, make, follow, Follows, FollowsEach}
use cftun.Client.Stack.Options.{TcpDefaults}
use cftun.Client.Stack.Create.{Config, create_stack}
use cftun.Client.Stack.Steps.{all_steps, create_stack-Follows}

abbrev pub calls_of : Plan → List Call
calls_of = map (λ (s : Step). s.0)

-- A step that a reply to it does not stop.
pub data Passes : Replies → List Call → Step → Type 0 where
  unchecked : {replies : Replies} {calls : List Call} {c : Call} → Passes replies calls (c, none)
  accepted :
      {replies : Replies} {calls : List Call} {c : Call} {message : String}
      → replies calls c ≡ none
      → Passes replies calls (c, some message)

pub data AllPass : Replies → List Call → Plan → Type 0 where
  end : {replies : Replies} {calls : List Call} → AllPass replies calls []
  next :
      {replies : Replies} {calls : List Call} {s : Step} {plan : Plan}
      → Passes replies calls s
      → AllPass replies (calls ++ s.0 ∷ []) plan
      → AllPass replies calls (s ∷ plan)

-- What can come of a plan: all calls were made and none that is looked at failed, or a call failed,
-- it was the last that was made, and the error is its message with the error's text.
pub data Outcome (replies : Replies) (calls : List Call) (plan : Plan)
    (r : List Call × Option String) : Type 0 where
  whole :
      AllPass replies calls plan → r ≡ (calls ++ calls_of plan, none) → Outcome replies calls plan r
  stopped :
      (message err : String) (before : Plan) (c : Call) (after : Plan)
      → plan ≡ before ++ (c, some message) ∷ after
      → AllPass replies calls before
      → replies (calls ++ calls_of before) c ≡ some err
      → r ≡ (calls ++ (calls_of before ++ c ∷ []), some (message <> ": " <> err))
      → Outcome replies calls plan r

after_step :
    {replies : Replies} {calls : List Call} {plan : Plan} {r : List Call × Option String} (s : Step)
    → Passes replies calls s
    → Outcome replies (calls ++ s.0 ∷ []) plan r
    → Outcome replies calls (s ∷ plan) r
after_step {calls = calls} {plan = plan} s h (whole all e) =
    whole (next h all)
      (e ∙ ap (λ (v : List Call). (v, none)) (append_assoc calls (s.0 ∷ []) (calls_of plan)))
after_step {replies = replies} {calls = calls} s h (stopped m err before c after e all reply r) =
    stopped m err (s ∷ before) c after (ap (λ (v : Plan). s ∷ v) e) (next h all)
      (ap (λ (v : List Call). replies v c) (sym (append_assoc calls (s.0 ∷ []) (calls_of before)))
        ∙ reply)
      (r
        ∙ ap (λ (v : List Call). (v, some (m <> ": " <> err)))
            (append_assoc calls (s.0 ∷ []) (calls_of before ++ c ∷ [])))

pub follow-Outcome :
    (plan : Plan) (replies : Replies) (calls : List Call)
    → Outcome replies calls plan (follow plan replies calls)
unfolding follow and_then proceed nothing make sure attempt
follow-Outcome [] replies calls =
    whole end (ap (λ (v : List Call). (v, none)) (sym (append-nil calls)))
follow-Outcome ((c, none) ∷ plan) replies calls =
    after_step (c, none) unchecked (follow-Outcome plan replies (calls ++ c ∷ []))
follow-Outcome ((c, some message) ∷ plan) replies calls = elim (Option-cases (replies calls c)) [
  | inl e ↦
      rw e
        (after_step (c, some message) (accepted e) (follow-Outcome plan replies (calls ++ c ∷ [])))
  | inr (err, e) ↦ rw e (
      stopped message err [] c plan refl end
        (ap (λ (v : List Call). replies v c) (append-nil calls) ∙ e) refl)
]

pub calls_of-append : (p q : Plan) → calls_of (p ++ q) ≡ calls_of p ++ calls_of q
calls_of-append [] q = refl
calls_of-append (s ∷ p) q = ap (λ (v : List Call). s.0 ∷ v) (calls_of-append p q)

pub Outcome-prefix :
    (replies : Replies) (plan : Plan) (r : List Call × Option String)
    → Outcome replies [] plan r
    → (rest : List Call) × (calls_of plan ≡ r.0 ++ rest)
Outcome-prefix replies plan r (whole all e) =
    ([], sym (append-nil (r.0) ∙ ap (λ (v : List Call × Option String). v.0) e))
Outcome-prefix replies plan r (stopped m err before c after e all reply h) = (
  calls_of after,
  ap calls_of e
      ∙ calls_of-append before ((c, some m) ∷ after)
      ∙ sym (append_assoc (calls_of before) (c ∷ []) (calls_of after))
      ∙ ap (λ (v : List Call × Option String). v.0 ++ calls_of after) (sym h),
)

-- CreateStack makes the calls of its plan in this order: those of the default options, those of the
-- configuration's options, both handlers, the NIC, its modes, the routes and the multicast groups.
-- Either it makes them all, no call whose error is looked at fails, and it returns no error; or it
-- stops right after the first such call that fails, and returns that call's message with the
-- error's text. The plans are those of the configuration's options.
pub create_stack-Outcome :
    (d : TcpDefaults) (nic : ℕ) (cfg : Config) (plans : List Plan) (replies : Replies)
    → FollowsEach plans cfg.options
    → Outcome replies []
        (all_steps d plans nic cfg.multicast_groups)
        (create_stack d nic cfg replies [])
unfolding Follows
create_stack-Outcome d nic cfg plans replies h =
    subst (Outcome replies [] (all_steps d plans nic cfg.multicast_groups))
      (sym (create_stack-Follows d nic cfg plans h replies [])) (follow-Outcome _ replies [])
