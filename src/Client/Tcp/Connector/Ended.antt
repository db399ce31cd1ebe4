-- ===== src/Client/Tcp/Connector/Ended.antt =====
-- What the end of one goroutine does to the other one.
use cftun.Common.{
  ℕ, ◌+◌, ◌≤◌, ◌≡◌, refl, sym, ap, ◌∙◌, Bool, true, false, ◌⊎◌, inl, inr, List, [], ◌∷◌, ◌++◌,
  Bytes, length, length-append, flatten, flatten-append, append-nil, append_assoc, arith,
}
use cftun.Client.Tunnel.{Side, origin, remote, other, same, set_side}
use cftun.Client.Tcp.Connector.Copied.{Reach-copied}
use cftun.Client.Tcp.Connector.{
  Stage, testing, reading, leaving, flagged, ended, writing, TcpConnector, handle, Step, test_on,
  test_off, read_local, read_message, read_buffered, read_fails, write, write_short, write_fails,
  close, close_connection, Reach, here, next,
}

same-cases : (a b : Side) → ((same a b ≡ true) × (a ≡ b)) ⊎ ((same a b ≡ false) × (a ≡ other b))
same-cases origin origin = inl (refl, refl)
same-cases origin remote = inr (refl, refl)
same-cases remote origin = inr (refl, refl)
same-cases remote remote = inl (refl, refl)

-- The chunk that a goroutine is about to write.
abbrev pub holding : Stage → ℕ
holding (writing chunk) = 1
holding _ = 0

abbrev pub may_read : Stage → ℕ
may_read reading = 1
may_read _ = 0

-- What a connection has still in the buffer of its reads.
abbrev pub buffered : Side → TcpConnector → Bytes
buffered origin t = []
buffered remote t = t.read_buf

-- How far a goroutine can have got since a state, where the flag is set and the connection that it
-- reads from is closed.
pub record IsCutOff (b : Side) (t u : TcpConnector) : Type 0 where
  pub flagged : u.closed ≡ true
  pub shut : u.is_open b ≡ false
  pub once : length (u.taken b) + may_read (u.stage b) ≤ length (t.taken b) + may_read (t.stage b)
  pub few :
      length (u.sent b) + (holding (u.stage b) + may_read (u.stage b))
      ≤ length (t.sent b) + (holding (t.stage b) + may_read (t.stage b))
  pub stream : flatten (u.taken b) ++ buffered b u ≡ flatten (t.taken b) ++ buffered b t

-- A read takes from the front of the buffer.
read_stream :
    (taken : List Bytes) (chunk rest : Bytes)
    → flatten (taken ++ chunk ∷ []) ++ rest ≡ flatten taken ++ (chunk ++ rest)
unfolding flatten
read_stream taken chunk rest = simp (flatten-append, append_assoc, append-nil)

Step-IsCutOff : {t u w : TcpConnector} (b : Side) → Step u w → IsCutOff b t u → IsCutOff b t w
Step-IsCutOff b (test_on c e f) i = ground (arith, same-cases b c, i.flagged)
Step-IsCutOff b (test_off c e f) i = ground (arith, same-cases b c)
Step-IsCutOff origin (read_local chunk e o) i = ground (arith, i.shut)
Step-IsCutOff remote (read_local chunk e o) i = record {
  flagged = i.flagged;
  shut = i.shut;
  once = i.once;
  few = i.few;
  stream = i.stream;
}
Step-IsCutOff origin (read_message chunk rest e o n) i = record {
  flagged = i.flagged;
  shut = i.shut;
  once = i.once;
  few = i.few;
  stream = i.stream;
}
Step-IsCutOff remote (read_message chunk rest e o n) i = ground (arith, i.shut)
Step-IsCutOff origin (read_buffered chunk rest e q) i = record {
  flagged = i.flagged;
  shut = i.shut;
  once = i.once;
  few = i.few;
  stream = i.stream;
}
Step-IsCutOff {u = u} remote (read_buffered chunk rest e q) i = record {
  flagged = i.flagged;
  shut = i.shut;
  once = ground (arith, i.once, length-append (u.taken remote) (chunk ∷ []));
  few = ground (arith, i.few);
  stream =
      read_stream (u.taken remote) chunk rest
      ∙ ap (λ (z : Bytes). flatten (u.taken remote) ++ z) (sym q)
      ∙ i.stream;
}
Step-IsCutOff b (read_fails c e) i = ground (arith, same-cases b c)
Step-IsCutOff {u = u} b (write c chunk e o) i =
    ground (arith, same-cases b c, length-append (u.sent c) (chunk ∷ []))
Step-IsCutOff {u = u} b (write_short c part rest e o) i =
    ground (arith, same-cases b c, length-append (u.sent c) (part ∷ []))
Step-IsCutOff b (write_fails c chunk e) i = ground (arith, same-cases b c)
Step-IsCutOff b (close c e) i = ground (arith, same-cases b c)
Step-IsCutOff b (close_connection c e) i = ground (arith, same-cases b c, same-cases b (other c))

Reach-IsCutOff :
    {t u : TcpConnector} (b : Side)
    → t.closed ≡ true
    → t.is_open b ≡ false
    → Reach t u
    → IsCutOff b t u
Reach-IsCutOff b f o here = record {
  flagged = f;
  shut = o;
  once = omega arith;
  few = omega arith;
  stream = refl;
}
Reach-IsCutOff b f o (next r st) = Step-IsCutOff b st (Reach-IsCutOff b f o r)

may_read-le : (s : Stage) → may_read s ≤ 1
may_read-le s = ground arith

holds-le : (s : Stage) → holding s + may_read s ≤ 1
holds-le s = ground arith

Reach-append : {s t u : TcpConnector} → Reach s t → Reach t u → Reach s u
Reach-append r here = r
Reach-append r (next q st) = next (Reach-append r q) st

-- What the deferred calls of the goroutines have done.
record IsOrderly (closed : Bool) (is_open : Side → Bool) (stage : Side → Stage) : Type 0 where
  pub flag : (a : Side) → stage a ≡ flagged → closed ≡ true
  pub over : (a : Side) → stage a ≡ ended → (closed ≡ true) × (is_open (other a) ≡ false)

abbrev is_early : Stage → Bool
is_early flagged = false
is_early ended = false
is_early _ = true

-- A step that ends no goroutine.
move :
    {closed : Bool} {is_open : Side → Bool} {stage : Side → Stage} (c : Side) (s : Stage)
    → is_early s ≡ true
    → IsOrderly closed is_open stage
    → IsOrderly closed is_open (set_side c s stage)
move c s e i = record {
  flag = λ a. ground (arith, same-cases a c, i.flag a);
  over = λ a. ground (arith, same-cases a c, i.over a);
}

Step-IsOrderly :
    {t u : TcpConnector}
    → Step t u
    → IsOrderly t.closed t.is_open t.stage
    → IsOrderly u.closed u.is_open u.stage
Step-IsOrderly (test_on c e f) i = move c reading refl i
Step-IsOrderly (test_off c e f) i = move c leaving refl i
Step-IsOrderly (read_local chunk e o) i = move origin (writing chunk) refl i
Step-IsOrderly (read_message chunk rest e o n) i = move remote (writing chunk) refl i
Step-IsOrderly (read_buffered chunk rest e q) i = move remote (writing chunk) refl i
Step-IsOrderly (read_fails c e) i = move c leaving refl i
Step-IsOrderly (write c chunk e o) i = move c testing refl i
Step-IsOrderly (write_short c part rest e o) i = move c leaving refl i
Step-IsOrderly (write_fails c chunk e) i = move c leaving refl i
Step-IsOrderly (close c e) i = record {
  flag = λ a q. refl;
  over = λ a. ground (arith, same-cases a c, i.over a);
}
Step-IsOrderly (close_connection c e) i = record {
  flag = λ a. ground (arith, same-cases a c, i.flag a);
  over = λ a. ground (arith, same-cases a c, i.over a, i.flag c, same-cases (other a) (other c));
}

Reach-IsOrderly : {t : TcpConnector} → Reach handle t → IsOrderly t.closed t.is_open t.stage
unfolding handle
Reach-IsOrderly here = record { flag = λ a e. cc; over = λ a e. cc }
Reach-IsOrderly (next r st) = Step-IsOrderly st (Reach-IsOrderly r)

-- In every interleaving: when a goroutine has ended, `closed` is set and the connection that it wrote
-- to is closed. From then on the other one takes one chunk more at most, and only bytes that were in
-- the buffer of the WebSocket's reads: what it has taken with what is left in the buffer stays the
-- same stream, and nothing is taken from the local connection. It makes one more write at most, and
-- all its writes are the beginning of what it has taken.
pub ended-IsCutOff :
    {t u : TcpConnector} (a : Side)
    → Reach handle t
    → t.stage a ≡ ended
    → Reach t u
    → (t.closed ≡ true)
      × (u.is_open (other a) ≡ false)
      × (length (u.taken (other a)) ≤ length (t.taken (other a)) + 1)
      × (flatten (u.taken (other a)) ++ buffered (other a) u
          ≡ flatten (t.taken (other a)) ++ buffered (other a) t)
      × (length (u.sent (other a)) ≤ length (t.sent (other a)) + 1)
      × ((lost : Bytes) × (flatten (u.sent (other a)) ++ lost ≡ flatten (u.taken (other a))))
ended-IsCutOff {t} {u} a r e q =
    let i = (Reach-IsOrderly r).over a e in
    let c = Reach-IsCutOff (other a) i.0 i.1 q in
    (
      i.0,
      c.shut,
      omega (arith, c.once, may_read-le (t.stage (other a))),
      c.stream,
      omega (arith, c.few, holds-le (t.stage (other a))),
      (Reach-copied (other a) (Reach-append r q)).0,
    )
