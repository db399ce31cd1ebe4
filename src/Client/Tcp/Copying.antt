-- ===== src/Client/Tcp/Copying.antt =====
-- What the loops copy.
use cftun.Common.{
  ℕ, ◌<◌, ◌≡◌, refl, sym, ◌∙◌, true, false, Option, none, some, List, [], ◌∷◌, ◌++◌, Bytes, All,
  length, flatten, append-nil, append_assoc, arith,
}
use cftun.Client.Argo.Gorilla.{GorillaConn, read, write}
use cftun.Client.Argo.Gorilla.Stream.{
  pending, left, Delivers, Advances, read-Delivers, read-Advances,
}
use cftun.Client.Tcp.{Sending, Receiving, upstream, downstream}

-- The loop runs on in this round: it was not closed, a chunk came, and the WebSocket took it.
abbrev pub CopiesChunk : Sending → Bytes → Type 0
CopiesChunk t bytes = (t.closed ≡ false) × (t.chunk ≡ some bytes) × (t.accepts ≡ true)

-- The rounds copy these chunks.
abbrev pub Copy : List Sending → List Bytes → Type 0
Copy [] [] = Unit
Copy [] (b ∷ bs) = ⊥
Copy (t ∷ ts) [] = ⊥
Copy (t ∷ ts) (b ∷ bs) = CopiesChunk t b × Copy ts bs

one_chunk :
    (t : Sending) (ts : List Sending) (b : Bytes) (ws : GorillaConn)
    → CopiesChunk t b
    → upstream (t ∷ ts) ws ≡ upstream ts (record ws { outbox = ws.outbox ++ b ∷ [] })
unfolding upstream write
one_chunk t ts b ws h = ground arith

-- Each chunk that is read goes out as one message of its own, in order, and the loop runs on.
pub upstream-Copy :
    (ts : List Sending) (chunks : List Bytes) (ws : GorillaConn)
    → Copy ts chunks
    → upstream ts ws ≡ (record ws { outbox = ws.outbox ++ chunks }, false)
unfolding upstream
upstream-Copy [] [] ws h = rw append-nil
upstream-Copy [] (b ∷ bs) ws h = absurd h
upstream-Copy (t ∷ ts) [] ws h = absurd h
upstream-Copy (t ∷ ts) (b ∷ bs) ws h =
    one_chunk t ts b ws h.0
    ∙ upstream-Copy ts bs (record ws { outbox = ws.outbox ++ b ∷ [] }) h.1
    ∙ rw append_assoc

-- The local connection takes every write whole.
pub record IsSmooth (t : Receiving) : Type 0 where
  pub live : t.closed ≡ false
  pub whole : (n : ℕ) → t.taken n ≡ n
  pub fine : t.failed ≡ false

abbrev round_writes : ℕ → List Receiving → GorillaConn × Option Bytes → List Bytes
round_writes size ts (ws', none) = []
round_writes size ts (ws', some bytes) = bytes ∷ downstream size ts ws'

one_read :
    (size : ℕ) (t : Receiving) (ts : List Receiving) (ws : GorillaConn)
    → IsSmooth t
    → downstream size (t ∷ ts) ws ≡ round_writes size ts (read size ws)
unfolding downstream
one_read size t ts ws s = go (read size ws).1 refl
  where
    go :
        (o : Option Bytes)
        → (read size ws).1 ≡ o
        → downstream size (t ∷ ts) ws ≡ round_writes size ts (read size ws)
    go none e = ground (arith, e)
    go (some b) e = ground (arith, e, s.whole (length b))

round_stream :
    (size : ℕ) (ts : List Receiving) (ws : GorillaConn) (r : GorillaConn × Option Bytes)
    → Delivers size ws r
    → Advances ws r
    → ((ws' : GorillaConn) → left ws' < left ws → flatten (downstream size ts ws') ≡ pending ws')
    → flatten (round_writes size ts r) ≡ pending ws
unfolding flatten
round_stream size ts ws (ws', none) d a rest = sym d.1
round_stream size ts ws (ws', some bytes) d a rest = rw (rest ws' a) d.0

-- With enough rounds, and a local connection that takes all it is given, the local connection
-- receives exactly the bytes of the WebSocket's messages, in order, whatever their sizes.
pub downstream-pending :
    (size : ℕ) (ts : List Receiving) (ws : GorillaConn)
    → 0 < size
    → All IsSmooth ts
    → left ws < length ts
    → flatten (downstream size ts ws) ≡ pending ws
downstream-pending size [] ws h s enough = absurd (omega arith)
downstream-pending size (t ∷ ts) ws h s enough = rw (one_read size t ts ws s.0) (
    round_stream size ts ws (read size ws) (read-Delivers size ws) (read-Advances size ws h)
      (λ ws' less. downstream-pending size ts ws' h s.1 (omega arith)))
