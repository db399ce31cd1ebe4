-- ===== src/Server/Connection/Upload.antt =====
-- What reaches the origin of what the client sent.
use mathlib.Core.List.{map}
use cftun.Common.{
  ℕ, ◌≤◌, ◌≡◌, ◌↔◌, refl, ap, ap₂, sym, ◌∙◌, false, List, [], ◌∷◌, ◌++◌, flatten, Bytes, All,
  length, take, arith, take-eq_self, length-append, length-take,
}
use cftun.Server.Websocket.{Conn, read}
use cftun.Server.Connection.{Round, forward}

-- The origin takes every write whole, and the context is not done.
pub record IsSmooth (r : Round) : Type 0 where
  pub live : r.cancelled ≡ false
  pub whole : (n : ℕ) → r.taken n ≡ n
  pub fine : r.failed ≡ false

smooth_round :
    (size : ℕ) (r : Round) (rs : List Round) (c : Conn) (m : Bytes) (inbox : List Bytes)
    → IsSmooth r
    → forward size (r ∷ rs) (record c { inbox = m ∷ inbox })
      ≡ take size m ∷ forward size rs (record c { inbox = inbox })
unfolding forward read
smooth_round size r rs c m inbox s = ground (arith, s.whole (length (take size m)))

forward_inbox :
    (size : ℕ) (rs : List Round) (c : Conn) (inbox : List Bytes)
    → All IsSmooth rs
    → length inbox ≤ length rs
    → forward size rs (record c { inbox = inbox }) ≡ map (take size) inbox
unfolding forward read
forward_inbox size [] c [] s h = refl
forward_inbox size [] c (m ∷ inbox) s h = absurd (omega arith)
forward_inbox size (r ∷ rs) c [] s h = refl
forward_inbox size (r ∷ rs) c (m ∷ inbox) s h =
    smooth_round size r rs c m inbox s.0
    ∙ ap (λ (l : List Bytes). take size m ∷ l) (forward_inbox size rs c inbox s.1 (omega arith))

-- With an origin that takes all, the writes are the messages, each cut to the size of the buffer.
pub forward-take :
    (size : ℕ) (rounds : List Round) (c : Conn)
    → All IsSmooth rounds
    → length c.inbox ≤ length rounds
    → forward size rounds c ≡ map (take size) c.inbox
forward-take size rounds c s h = forward_inbox size rounds c c.inbox s h

flat_cut_le :
    (size : ℕ) (l : List Bytes) → length (flatten (map (take size) l)) ≤ length (flatten l)
unfolding flatten
flat_cut_le size [] = omega arith
flat_cut_le size (m ∷ l) = omega (
  arith,
  flat_cut_le size l,
  length-append (take size m) (flatten (map (take size) l)),
  length-append m (flatten l),
  length-take size m,
)

intact_if :
    (size : ℕ) (l : List Bytes)
    → All (λ m. length m ≤ size) l
    → flatten (map (take size) l) ≡ flatten l
unfolding flatten
intact_if size [] h = refl
intact_if size (m ∷ l) h = ap₂ ◌++◌ (take-eq_self size m h.0) (intact_if size l h.1)

only_if_length :
    (size : ℕ) (l : List Bytes)
    → length (flatten (map (take size) l)) ≡ length (flatten l)
    → All (λ m. length m ≤ size) l
unfolding flatten
only_if_length size [] h = tt
only_if_length size (m ∷ l) h =
    let sum = length-append (take size m) (flatten (map (take size) l)) in
    let whole = length-append m (flatten l) in
    let cut = length-take size m in
    let rest = flat_cut_le size l in (omega arith, only_if_length size l (omega arith))

-- With an origin that takes every write whole, a context that is not done and a round for each
-- message, the bytes that reach the origin are the bytes of the messages exactly when every message
-- fits in the buffer; a longer one loses its end.
pub forward_intact :
    (size : ℕ) (rounds : List Round) (c : Conn)
    → All IsSmooth rounds
    → length c.inbox ≤ length rounds
    → (flatten (forward size rounds c) ≡ flatten c.inbox) ↔ All (λ m. length m ≤ size) c.inbox
forward_intact size rounds c s h =
    let e = ap flatten (forward-take size rounds c s h) in
    (
      λ same. only_if_length size c.inbox (ap length (sym e ∙ same)),
      λ fits. e ∙ intact_if size c.inbox fits,
    )
