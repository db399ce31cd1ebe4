-- ===== src/Server/Stream/Wrappers.antt =====
-- `SafeStreamCloser` and `nopCloserReadWriter`.
pub mod Laws
use cftun.Common.{
  ℕ, ◌+◌, Bool, true, false, ◌||◌, ◌&&◌, Option, none, some, List, [], ◌∷◌, ◌++◌, Bytes, length,
  ltb, if◌then◌else◌,
}

-- An error, as far as the code tells errors apart: `io.EOF`, a `net.Error` with its `Timeout()` and
-- whether it is the idle timeout, the handler's own, and any other.
pub data IoError : Type 0 where
  eof closed_by_handler other : IoError
  net_error : Bool → Bool → IoError

-- The fields of the stream record what was done to the QUIC stream.
pub record SafeStreamCloser : Type 0 where
  pub write_timeout : ℕ
  pub closing : Bool
  pub deadline : Option ℕ
  pub sent : List Bytes
  pub write_cancelled : Bool
  pub read_cancelled : Bool
  pub closed : Bool

unfoldable pub handle_write_error : IoError → SafeStreamCloser → SafeStreamCloser
handle_write_error (net_error timeout idle) s =
    if s.closing then s else if timeout then record s { write_cancelled = true } else s
handle_write_error e s = s

unfoldable pub set_deadline : ℕ → Bool → SafeStreamCloser → SafeStreamCloser
set_deadline now settable s =
    if ltb 0 s.write_timeout && settable
    then record s { deadline = some (now + s.write_timeout) }
    else s

-- `Write(p)` at the time `now`: `settable` says whether the deadline is accepted, and `(n, error)`
-- is what the stream's `Write` returns.
unfoldable pub write :
    ℕ
    → Bool
    → ℕ
    → Option IoError
    → Bytes
    → SafeStreamCloser
    → SafeStreamCloser × (ℕ × Option IoError)
write now settable n error p s =
    let timed = set_deadline now settable s in
    let written : SafeStreamCloser = record timed { sent = timed.sent ++ p ∷ [] } in
    (elim error [ none ↦ written | some e ↦ handle_write_error e written ], (n, error))

unfoldable pub close : ℕ → SafeStreamCloser → SafeStreamCloser
close now s = record s { closing = true; deadline = some now; read_cancelled = true; closed = true }

unfoldable pub close_write : SafeStreamCloser → SafeStreamCloser
close_write s = record s { closed = true }

-- What a `Read` returns: the bytes, and an error that may come with them.
pub record ReadResult : Type 0 where
  pub bytes : Bytes
  pub error : Option IoError

-- `Read`, from what the stream's `Read` returns.
unfoldable pub read : ReadResult → SafeStreamCloser → SafeStreamCloser × ReadResult
read r s = (s, r)

-- `SetDeadline`, as far as writes go; the stream may refuse it.
unfoldable pub set_deadline_to :
    ℕ → Option IoError → SafeStreamCloser → SafeStreamCloser × Option IoError
set_deadline_to at none s = (record s { deadline = some at }, none)
set_deadline_to at (some e) s = (s, some e)

abbrev pub failing : IoError → ReadResult
failing e = record { bytes = []; error = some e }

-- The stream below answers each read that reaches it.
pub record NopCloserReadWriter : Type 0 where
  pub saw_eof : Bool
  pub closed : Bool
  pub below : List ReadResult

abbrev is_eof : Option IoError → Bool
is_eof (some eof) = true
is_eof _ = false

read_below : NopCloserReadWriter → List ReadResult → NopCloserReadWriter × ReadResult
read_below np [] = (np, failing other)
read_below np (r ∷ rest) = (record np { saw_eof = np.saw_eof || is_eof r.error; below = rest }, r)

unfoldable pub nop_read : NopCloserReadWriter → NopCloserReadWriter × ReadResult
unfolding read_below
nop_read np =
    if np.saw_eof
    then (np, failing eof)
    else if np.closed
    then (np, failing closed_by_handler)
    else read_below np np.below

unfoldable pub nop_close : NopCloserReadWriter → NopCloserReadWriter
nop_close np = record np { closed = true }
