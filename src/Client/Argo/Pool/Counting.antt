-- ===== src/Client/Argo/Pool/Counting.antt =====
-- The counter against the channel.
use Prim.Native.Nat.{zero-le}
use cftun.Common.{ℕ, ◌+◌, ◌≤◌, ◌≡◌, refl, Option, [], ◌∷◌, length, length-append, arith}
use cftun.Common.Int.{pos, negsuc, pos_part, neg_part, +ℤ_parts}
use cftun.Client.Argo.Pool.{
  Pool, PreDial, idle, pushed, Answer, Step, pre_full, pre_enter, pre_stopped, pre_failed,
  pre_connect, pre_push, pre_drop, pre_count, dial_stopped, dial_take, dial_count, dial_connect,
  dial_failed, close_stop, close_drain, close_return, Reach, here, next, new_pool,
}

-- A connection that `preDial` has put into the channel and not yet counted.
abbrev pub uncounted : PreDial → ℕ
uncounted pushed = 1
uncounted _ = 0

-- The counter is the channel's length, up to the calls that are between the two operations, and the
-- connections that `Close` took out without counting them.
pub record IsBalanced (size : ℕ) (s : Pool) : Type 0 where
  pub counted :
      pos_part s.count + uncounted s.pre
      ≡ neg_part s.count + (length s.conns + s.takers + s.drained)
  pub bounded : length s.conns ≤ size
  pub sized : s.size ≡ size

Step-IsBalanced :
    {size : ℕ} {s t : Pool} {a : Option Answer} → Step s a t → IsBalanced size s → IsBalanced size t
Step-IsBalanced (pre_full e h) b = b
Step-IsBalanced {s} (pre_push c e h) b = ground (arith, length-append s.conns (c ∷ []))
Step-IsBalanced {s} (pre_count e) b = ground (arith, +ℤ_parts s.count (pos 1))
Step-IsBalanced {s} (dial_count n e) b = ground (arith, +ℤ_parts s.count (negsuc 0))
Step-IsBalanced (pre_enter e h) b = ground arith
Step-IsBalanced (pre_stopped e h) b = ground arith
Step-IsBalanced (pre_failed e h) b = ground arith
Step-IsBalanced (pre_connect e h) b = ground arith
Step-IsBalanced (pre_drop c e h) b = ground arith
Step-IsBalanced (dial_stopped e) b = b
Step-IsBalanced (dial_take c rest e) b = ground arith
Step-IsBalanced (dial_connect m e h) b = b
Step-IsBalanced (dial_failed e h) b = b
Step-IsBalanced (close_stop e) b = ground arith
Step-IsBalanced (close_drain c rest e h) b = ground arith
Step-IsBalanced (close_return e h k) b = ground arith

new_pool-IsBalanced : (size : ℕ) → IsBalanced size (new_pool size)
new_pool-IsBalanced size = record { counted = refl; bounded = zero-le; sized = refl }

-- From a new pool on, however the goroutines interleave, the counter plus what `preDial` has not counted yet is the
-- number of pooled connections plus what `Dial` has taken and not counted yet and what `Close` has
-- drained, and the channel holds at most the pool's size.
pub Reach-IsBalanced : {size : ℕ} {t : Pool} → Reach (new_pool size) t → IsBalanced size t
Reach-IsBalanced {size} here = new_pool-IsBalanced size
Reach-IsBalanced (next r step) = Step-IsBalanced step (Reach-IsBalanced r)

-- Nothing is between two operations, and `Close` was not called.
pub record IsAtRest (s : Pool) : Type 0 where
  pub pre : s.pre ≡ idle
  pub takers : s.takers ≡ 0
  pub drained : s.drained ≡ 0

-- At rest the counter is the number of pooled connections, so it lies between 0 and the pool's
-- size.
pub count_at_rest :
    {size : ℕ} {t : Pool}
    → Reach (new_pool size) t
    → IsAtRest t
    → (t.count ≡ pos (length t.conns)) × (length t.conns ≤ size)
count_at_rest {size} {t} r rest = let b = Reach-IsBalanced r in ground arith
