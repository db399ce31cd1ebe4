-- ===== src/Client/Tcp/Connector/Copied.antt =====
-- Each goroutine writes what it has read, in order.
use mathlib.Core.Path.{subst}
use cftun.Common.{
  ◌≡◌, refl, ◌∙◌, ap, List, [], ◌∷◌, ◌++◌, Bytes, flatten, append-nil, append_assoc, flatten-append,
}
use cftun.Client.Tunnel.{Side, origin, remote, set_side}
use cftun.Client.Tcp.Connector.{
  Stage, testing, reading, leaving, flagged, ended, writing, TcpConnector, handle, Step, test_on,
  test_off, read_local, read_message, read_buffered, read_fails, write, write_short, write_fails,
  close, close_connection, Reach, here, next,
}

-- What was sent against what was taken, by the stage.
pub Copied : Stage → List Bytes → List Bytes → Type 0
Copied testing taken sent = sent ≡ taken
Copied reading taken sent = sent ≡ taken
Copied (writing chunk) taken sent = sent ++ chunk ∷ [] ≡ taken
Copied leaving taken sent = (lost : Bytes) × (flatten sent ++ lost ≡ flatten taken)
Copied flagged taken sent = (lost : Bytes) × (flatten sent ++ lost ≡ flatten taken)
Copied ended taken sent = (lost : Bytes) × (flatten sent ++ lost ≡ flatten taken)

IsCopied : TcpConnector → Type 0
IsCopied t = (a : Side) → Copied (t.stage a) (t.taken a) (t.sent a)

-- A change of one goroutine.
at_stage :
    (a b : Side) (s : Stage) (t : TcpConnector)
    → Copied s (t.taken a) (t.sent a)
    → IsCopied t
    → Copied (set_side a s t.stage b) (t.taken b) (t.sent b)
unfolding IsCopied
at_stage origin origin s t h k = h
at_stage origin remote s t h k = k remote
at_stage remote origin s t h k = k origin
at_stage remote remote s t h k = h

at_taken :
    (a b : Side) (s : Stage) (taken : List Bytes) (t : TcpConnector)
    → Copied s taken (t.sent a)
    → IsCopied t
    → Copied (set_side a s t.stage b) (set_side a taken t.taken b) (t.sent b)
unfolding IsCopied
at_taken origin origin s taken t h k = h
at_taken origin remote s taken t h k = k remote
at_taken remote origin s taken t h k = k origin
at_taken remote remote s taken t h k = h

at_sent :
    (a b : Side) (s : Stage) (sent : List Bytes) (t : TcpConnector)
    → Copied s (t.taken a) sent
    → IsCopied t
    → Copied (set_side a s t.stage b) (t.taken b) (set_side a sent t.sent b)
unfolding IsCopied
at_sent origin origin s sent t h k = h
at_sent origin remote s sent t h k = k remote
at_sent remote origin s sent t h k = k origin
at_sent remote remote s sent t h k = h

-- What the stage of a goroutine tells.
found :
    (a : Side) (s : Stage) (t : TcpConnector)
    → t.stage a ≡ s
    → IsCopied t
    → Copied s (t.taken a) (t.sent a)
unfolding IsCopied
found a s t e k = subst (λ (z : Stage). Copied z (t.taken a) (t.sent a)) e (k a)

-- Nothing is lost but the chunk at hand.
lost_none :
    (taken sent : List Bytes)
    → sent ≡ taken
    → (lost : Bytes) × (flatten sent ++ lost ≡ flatten taken)
lost_none taken sent e = ([], append-nil (flatten sent) ∙ ap flatten e)

lost_rest :
    (part rest : Bytes) (taken sent : List Bytes)
    → sent ++ (part ++ rest) ∷ [] ≡ taken
    → flatten (sent ++ part ∷ []) ++ rest ≡ flatten taken
unfolding flatten
lost_rest part rest taken sent e = rw (← e) (simp (flatten-append, append_assoc, append-nil))

lost_all :
    (chunk : Bytes) (taken sent : List Bytes)
    → sent ++ chunk ∷ [] ≡ taken
    → flatten sent ++ chunk ≡ flatten taken
unfolding flatten
lost_all chunk taken sent e = rw (← e) (simp (flatten-append, append-nil))

-- A read.
at_read :
    (a b : Side) (chunk : Bytes) (t : TcpConnector)
    → t.stage a ≡ reading
    → IsCopied t
    → Copied
        (set_side a (writing chunk) t.stage b)
        (set_side a (t.taken a ++ chunk ∷ []) t.taken b)
        (t.sent b)
unfolding IsCopied Copied
at_read a b chunk t e h =
    at_taken a b (writing chunk) _ t
      (ap (λ (l : List Bytes). l ++ chunk ∷ []) (found a reading t e h)) h

Step-IsCopied : {t u : TcpConnector} → Step t u → IsCopied t → IsCopied u
unfolding IsCopied Copied
Step-IsCopied {t} (test_on a e c) h = λ b. at_stage a b reading t (found a testing t e h) h
Step-IsCopied {t} (test_off a e c) h =
    λ b. at_stage a b leaving t (lost_none _ _ (found a testing t e h)) h
Step-IsCopied {t} (read_local chunk e o) h = λ b. at_read origin b chunk t e h
Step-IsCopied {t} (read_message chunk rest e o n) h = λ b. at_read remote b chunk t e h
Step-IsCopied {t} (read_buffered chunk rest e q) h = λ b. at_read remote b chunk t e h
Step-IsCopied {t} (read_fails a e) h =
    λ b. at_stage a b leaving t (lost_none _ _ (found a reading t e h)) h
Step-IsCopied {t} (write a chunk e o) h =
    λ b. at_sent a b testing _ t (found a (writing chunk) t e h) h
Step-IsCopied {t} (write_short a part rest e o) h = λ b.
    at_sent a b leaving _ t (rest, lost_rest part rest _ _ (found a (writing (part ++ rest)) t e h))
      h
Step-IsCopied {t} (write_fails a chunk e) h =
    λ b. at_stage a b leaving t (chunk, lost_all chunk _ _ (found a (writing chunk) t e h)) h
Step-IsCopied {t} (close a e) h = λ b. at_stage a b flagged t (found a leaving t e h) h
Step-IsCopied {t} (close_connection a e) h = λ b. at_stage a b ended t (found a flagged t e h) h

Reach-IsCopied : {t : TcpConnector} → Reach handle t → IsCopied t
unfolding IsCopied Copied handle
Reach-IsCopied here = λ a. refl
Reach-IsCopied (next r st) = Step-IsCopied st (Reach-IsCopied r)

any_lost :
    (s : Stage) (taken sent : List Bytes)
    → Copied s taken sent
    → (lost : Bytes) × (flatten sent ++ lost ≡ flatten taken)
unfolding Copied
any_lost testing taken sent h = lost_none taken sent h
any_lost reading taken sent h = lost_none taken sent h
any_lost (writing chunk) taken sent h = (chunk, lost_all chunk taken sent h)
any_lost leaving taken sent h = h
any_lost flagged taken sent h = h
any_lost ended taken sent h = h

-- In every interleaving: what a goroutine has written is the beginning of what it has read, in
-- order. At the test of the flag and in `Read` nothing is missing, and in `Write` the chunk of this
-- call is what is missing.
pub Reach-copied :
    {t : TcpConnector} (a : Side)
    → Reach handle t
    → ((lost : Bytes) × (flatten (t.sent a) ++ lost ≡ flatten (t.taken a)))
      × (t.stage a ≡ testing → t.sent a ≡ t.taken a)
      × (t.stage a ≡ reading → t.sent a ≡ t.taken a)
      × ((chunk : Bytes) → t.stage a ≡ writing chunk → t.sent a ++ chunk ∷ [] ≡ t.taken a)
unfolding IsCopied Copied
Reach-copied {t} a r =
    let h = Reach-IsCopied r in
    (
      any_lost (t.stage a) (t.taken a) (t.sent a) (h a),
      λ e. found a testing t e h,
      λ e. found a reading t e h,
      λ chunk e. found a (writing chunk) t e h,
    )
