-- ===== src/Client/Tunnel/Pipe.antt =====
-- Both connections of a pipe are closed when it returns, and nothing is copied from then on.
use mathlib.Core.Bool.{true≢false}
use mathlib.Core.Path.{subst}
use cftun.Common.{◌≡◌, refl, sym, ◌∙◌, Bool, false}
use cftun.Client.Tunnel.{
  Side, origin, remote, other, set_side, Stage, reading, copied, half_closed, finished, writing,
  Piping, pipe, Step, read, read_buffered, write, read_ends, write_fails, close_src, close_dst,
  Reach, here, next,
}

-- What a stage tells of the connections.
pub Closed : Stage → (Side → Bool) → Side → Type 0
Closed half_closed is_open a = is_open a ≡ false
Closed finished is_open a = (is_open a ≡ false) × (is_open (other a) ≡ false)
Closed s is_open a = Unit

pub IsOrderly : Piping → Type 0
IsOrderly p = (a : Side) → Closed (p.stage a) p.is_open a

set_closed :
    (a b : Side) (is_open : Side → Bool) → is_open b ≡ false → set_side a false is_open b ≡ false
set_closed origin origin is_open h = refl
set_closed origin remote is_open h = h
set_closed remote origin is_open h = h
set_closed remote remote is_open h = refl

set_same : (a : Side) (is_open : Side → Bool) → set_side a false is_open a ≡ false
set_same origin is_open = refl
set_same remote is_open = refl

-- What was closed stays closed.
Closed-set :
    (s : Stage) (a b : Side) (is_open : Side → Bool)
    → Closed s is_open b
    → Closed s (set_side a false is_open) b
unfolding Closed
Closed-set half_closed a b is_open h = set_closed a b is_open h
Closed-set finished a b is_open (h, k) =
    (set_closed a b is_open h, set_closed a (other b) is_open k)
Closed-set reading a b is_open h = h
Closed-set copied a b is_open h = h
Closed-set (writing c) a b is_open h = h

-- A change of one stage.
at :
    (a b : Side) (s : Stage) (stage : Side → Stage) (is_open : Side → Bool)
    → Closed s is_open a
    → ((c : Side) → Closed (stage c) is_open c)
    → Closed (set_side a s stage b) is_open b
at origin origin s stage is_open h k = h
at origin remote s stage is_open h k = k remote
at remote origin s stage is_open h k = k origin
at remote remote s stage is_open h k = h

step-IsOrderly : {p q : Piping} → Step p q → IsOrderly p → IsOrderly q
unfolding IsOrderly Closed
step-IsOrderly {p = p} (read a chunk e o) h = λ b. at a b (writing chunk) p.stage p.is_open tt h
step-IsOrderly {p = p} (read_buffered chunk e) h =
    λ b. at remote b (writing chunk) p.stage p.is_open tt h
step-IsOrderly {p = p} (write a chunk e o) h = λ b. at a b reading p.stage p.is_open tt h
step-IsOrderly {p = p} (read_ends a e) h = λ b. at a b copied p.stage p.is_open tt h
step-IsOrderly {p = p} (write_fails a chunk e) h = λ b. at a b copied p.stage p.is_open tt h
step-IsOrderly {p = p} (close_src a e) h = λ b.
    at a b half_closed p.stage (set_side a false p.is_open) (set_same a p.is_open)
      (λ c. Closed-set (p.stage c) a c p.is_open (h c))
step-IsOrderly {p = p} (close_dst a e) h =
    let src : p.is_open a ≡ false = subst (λ (s : Stage). Closed s p.is_open a) e (h a) in
    λ b.
      at a b finished p.stage (set_side (other a) false p.is_open)
        (set_closed (other a) a p.is_open src, set_same (other a) p.is_open)
        (λ c. Closed-set (p.stage c) (other a) c p.is_open (h c))

Reach-IsOrderly : {p : Piping} → Reach p → IsOrderly p
unfolding IsOrderly Closed pipe
Reach-IsOrderly here = λ a. tt
Reach-IsOrderly (next r s) = step-IsOrderly s (Reach-IsOrderly r)

both_closed :
    (p : Piping) (a : Side) → Reach p → p.stage a ≡ finished → (b : Side) → p.is_open b ≡ false
unfolding IsOrderly Closed
both_closed p origin r e origin =
    (subst (λ (s : Stage). Closed s p.is_open origin) e (Reach-IsOrderly r origin)).0
both_closed p origin r e remote =
    (subst (λ (s : Stage). Closed s p.is_open origin) e (Reach-IsOrderly r origin)).1
both_closed p remote r e origin =
    (subst (λ (s : Stage). Closed s p.is_open remote) e (Reach-IsOrderly r remote)).1
both_closed p remote r e remote =
    (subst (λ (s : Stage). Closed s p.is_open remote) e (Reach-IsOrderly r remote)).0

-- Where nothing is open, a step writes nothing.
step-sent : {p q : Piping} → Step p q → ((b : Side) → p.is_open b ≡ false) → q.sent ≡ p.sent
step-sent (read a chunk e o) h = refl
step-sent (read_buffered chunk e) h = refl
step-sent (write a chunk e o) h = absurd (true≢false (sym o ∙ h (other a)))
step-sent (read_ends a e) h = refl
step-sent (write_fails a chunk e) h = refl
step-sent (close_src a e) h = refl
step-sent (close_dst a e) h = refl

-- In every interleaving of the two goroutines: when one of them has finished, both connections are
-- closed, and no step of the other one writes anything more.
pub finished-closed :
    (p : Piping) (a : Side)
    → Reach p
    → p.stage a ≡ finished
    → ((b : Side) → p.is_open b ≡ false) × ((q : Piping) → Step p q → q.sent ≡ p.sent)
finished-closed p a r e = (both_closed p a r e, λ q s. step-sent s (both_closed p a r e))
