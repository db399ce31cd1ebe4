-- ===== src/Client/Argo/Pool/Closing.antt =====
-- What the pool hands out, and how `Close` ends.
use cftun.Common.{
  ℕ, ◌≡◌, ◌≢◌, refl, Bool, true, false, Option, none, some, List, [], ◌∷◌, ◌++◌, All, arith,
}
use cftun.Client.Metadata.{Metadata}
use cftun.Client.Argo.Pool.{
  Pool, PreDial, Link, Answer, answered, Step, connected, returned, pre_full, pre_enter,
  pre_stopped, pre_failed, pre_connect, pre_push, pre_drop, pre_count, dial_stopped, dial_take,
  dial_count, dial_connect, dial_failed, close_stop, close_drain, close_return, Reach, here, next,
  new_pool,
}

abbrev pub IsPlain : Link → Type 0
IsPlain c = c.opened_for ≡ none

abbrev ConnectedPlain : PreDial → Type 0
ConnectedPlain (connected c) = IsPlain c
ConnectedPlain _ = Unit

All-concat : (xs : List Link) (c : Link) → All IsPlain xs → IsPlain c → All IsPlain (xs ++ c ∷ [])
All-concat [] c h p = (p, tt)
All-concat (x ∷ xs) c h p = (h.0, All-concat xs c h.1 p)

-- Every pooled connection was opened for no destination, and the channel is open.
record IsAnonymous (s : Pool) : Type 0 where
  pooled : All IsPlain s.conns
  pending : ConnectedPlain s.pre
  unclosed : s.channel_closed ≡ false
  closer : s.closer ≢ returned

anonymous :
    {s : Pool}
    → All IsPlain s.conns
    → ConnectedPlain s.pre
    → s.channel_closed ≡ false
    → s.closer ≢ returned
    → IsAnonymous s
anonymous a b c d = record { pooled = a; pending = b; unclosed = c; closer = d }

Step-IsAnonymous : {s t : Pool} {a : Option Answer} → Step s a t → IsAnonymous s → IsAnonymous t
Step-IsAnonymous (pre_full e h) b = b
Step-IsAnonymous {s} (pre_push c e h) b =
    anonymous (All-concat s.conns c b.pooled (rw e at b.pending)) tt b.unclosed b.closer
Step-IsAnonymous (pre_count e) b = anonymous b.pooled tt b.unclosed b.closer
Step-IsAnonymous (dial_count n e) b = anonymous b.pooled b.pending b.unclosed b.closer
Step-IsAnonymous (pre_enter e h) b = anonymous b.pooled tt b.unclosed b.closer
Step-IsAnonymous (pre_stopped e h) b = anonymous b.pooled tt b.unclosed b.closer
Step-IsAnonymous (pre_failed e h) b = anonymous b.pooled tt b.unclosed b.closer
Step-IsAnonymous (pre_connect e h) b = anonymous b.pooled refl b.unclosed b.closer
Step-IsAnonymous (pre_drop c e h) b = anonymous b.pooled tt b.unclosed b.closer
Step-IsAnonymous (dial_stopped e) b = b
Step-IsAnonymous (dial_take c rest e) b =
    let all : All IsPlain (c ∷ rest) = rw e at b.pooled in
    anonymous all.1 b.pending b.unclosed b.closer
Step-IsAnonymous (dial_connect m e h) b = b
Step-IsAnonymous (dial_failed e h) b = b
Step-IsAnonymous (close_stop e) b = anonymous b.pooled b.pending b.unclosed (λ h. cc)
Step-IsAnonymous (close_drain c rest e h) b =
    let all : All IsPlain (c ∷ rest) = rw h at b.pooled in
    anonymous all.1 b.pending b.unclosed b.closer
Step-IsAnonymous (close_return e h k) b = absurd (ground (arith, b.unclosed))

Reach-IsAnonymous : {s t : Pool} → IsAnonymous s → Reach s t → IsAnonymous t
Reach-IsAnonymous b here = b
Reach-IsAnonymous b (next r step) = Step-IsAnonymous step (Reach-IsAnonymous b r)

new_pool-IsAnonymous : (size : ℕ) → IsAnonymous (new_pool size)
new_pool-IsAnonymous size = record { pooled = tt; pending = tt; unclosed = refl; closer = λ h. cc }

-- How an answer tells whether the handshake named the destination.
abbrev pub Names : Link → Bool → Type 0
Names c true = (m : Metadata) × (c.opened_for ≡ some m)
Names c false = c.opened_for ≡ none

answer-Names :
    {s t : Pool} {c : Link} {sent : Bool}
    → IsAnonymous s
    → Step s (some (answered c sent)) t
    → Names c sent
answer-Names b (dial_take c rest e) = (rw e at b.pooled).0
answer-Names b (dial_connect m e h) = (m, refl)

-- Whatever happened to the pool before, `Dial` answers `headerSent` exactly when the handshake of
-- the connection named a destination; a connection from the pool never did.
pub dial-Names :
    {size : ℕ} {s t : Pool} {c : Link} {sent : Bool}
    → Reach (new_pool size) s
    → Step s (some (answered c sent)) t
    → Names c sent
dial-Names {size} r step = answer-Names (Reach-IsAnonymous (new_pool-IsAnonymous size) r) step

-- `Close` never returns: it ranges over a channel that nothing closes.
pub close_never_returns : {size : ℕ} {s : Pool} → Reach (new_pool size) s → s.closer ≢ returned
close_never_returns {size} r = (Reach-IsAnonymous (new_pool-IsAnonymous size) r).closer
