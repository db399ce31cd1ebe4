-- ===== src/Client/Endpoint/Loop.antt =====
-- The two loops of an endpoint: what is written, and how they end.
use cftun.Common.{
  ◌≡◌, Bool-cases, inl, inr, ◌++◌, ap, refl, true, false, Option, none, some, List, [], ◌∷◌, map,
  Bytes, arith,
}
use cftun.Client.Endpoint.{
  Endpoint, write_packet, outbound_loop, Loops, new_loops, attach, waits, LoopStep, attached,
  dispatch_ends, outbound_ends,
}

-- Every packet that is read is written, in order, up to the end of the context.
pub outbound_loop-map :
    (e : Endpoint) (packets : List Bytes) (rest : List (Option Bytes))
    → outbound_loop e (map some packets ++ none ∷ rest) ≡ map (write_packet e) packets
unfolding outbound_loop
outbound_loop-map e [] rest = refl
outbound_loop-map e (p ∷ ps) rest =
    ap (λ (l : List Bytes). write_packet e p ∷ l) (outbound_loop-map e ps rest)

pub data LoopReach : Loops → Type 0 where
  here : LoopReach new_loops
  next : {l k : Loops} → LoopReach l → LoopStep l k → LoopReach k

pub record IsPaired (l : Loops) : Type 0 where
  pub before : l.once ≡ false → (l.outbound ≡ false) × (l.dispatching ≡ false)
  pub ended : l.once ≡ true → l.dispatching ≡ false → l.cancelled ≡ true
  pub over : l.cancelled ≡ true → (l.once ≡ true) × (l.dispatching ≡ false)
  pub first : l.outbound ≡ false → l.once ≡ true → l.dispatching ≡ false

step-IsPaired : {l k : Loops} → LoopStep l k → IsPaired l → IsPaired k
unfolding attach
step-IsPaired attached i = ground arith
step-IsPaired (dispatch_ends e) i = ground arith
step-IsPaired (outbound_ends e c) i = ground arith

-- However often the endpoint is attached: the loops run once, `dispatchLoop` ends first, and the
-- other one is then free to end.
pub LoopReach-IsPaired : {l : Loops} → LoopReach l → IsPaired l
LoopReach-IsPaired here = record {
  before = λ e. (refl, refl);
  ended = λ e. cc;
  over = λ e. cc;
  first = λ e. cc;
}
LoopReach-IsPaired (next r s) = step-IsPaired s (LoopReach-IsPaired r)

-- `Wait` returns as soon as `outboundLoop` has ended.
pub LoopReach-waits : {l : Loops} → LoopReach l → l.outbound ≡ false → waits l ≡ true
unfolding waits
LoopReach-waits {l} r e =
    let i = LoopReach-IsPaired r in
    elim (Bool-cases l.once) [
      | inl once ↦ ground (arith, i.first e once)
      | inr new ↦ ground (arith, i.before new)
    ]
