-- ===== src/Server/Websocket.antt =====
-- server/cfd/websocket.go, `Conn`: WebSocket messages over a QUIC stream. The WebSocket library is
-- a parameter: the messages that `ReadClientBinary` returns, and whether a write succeeds.
pub mod Closing
use cftun.Common.{
  ℕ, ◌*◌, ◌/◌, Bool, true, false, Option, none, some, List, [], ◌∷◌, ◌++◌, Bytes, length, take,
  if◌then◌else◌,
}

pub data Frame : Type 0 where
  binary : Bytes → Frame
  ping_frame control_frame : Frame

pub record Conn : Type 0 where
  pub done : Bool
  pub inbox : List Bytes
  pub sent : List Frame

-- Seconds.
abbrev pub default_pong_wait : ℕ
default_pong_wait = 60

abbrev pub default_ping_period : ℕ
default_ping_period = default_pong_wait * 9 / 10

-- The context's value wins, where it is there and is a duration.
unfoldable pub ping_period : Option ℕ → ℕ
ping_period none = default_ping_period
ping_period (some period) = period

-- The result of `ping`: whether the connection is done, and whether the write failed.
pub record Pinged : Type 0 where
  pub stop : Bool
  pub failed : Bool

-- A frame that the library accepts is on the wire.
abbrev push : Bool → Frame → Conn → Conn
push accepts f c = if accepts then record c { sent = c.sent ++ f ∷ [] } else c

unfoldable pub ping : Bool → Conn → Conn × Pinged
ping accepts c = if c.done then (c, record { stop = true; failed = false }) else (
  push accepts ping_frame c,
  record { stop = false; failed = if accepts then false else true },
)

unfoldable pub close : Conn → Conn
close c = record c { done = true }

-- `Read(reader)` with `len(reader)` given: `copy` takes what fits, and the rest of the message is
-- gone.
unfoldable pub read : ℕ → Conn → Conn × Option Bytes
read len c = (
  record c { inbox = elim c.inbox [ [] ↦ [] | m ∷ rest ↦ rest ] },
  elim c.inbox [ [] ↦ none | m ∷ rest ↦ some (take len m) ],
)

pub data WriteError : Type 0 where
  closed_connection write_failed : WriteError

-- The count of bytes written, or an error.
unfoldable pub write : Bool → Bytes → Conn → Conn × (Option WriteError × ℕ)
write accepts p c =
    if c.done
    then (c, (some closed_connection, 0))
    else if accepts
    then (push true (binary p) c, (none, length p))
    else (c, (some write_failed, 0))

-- What `select` finds in `pinger`: a tick, with the fate of the ping and the frames that
-- `HandleClientControlMessage` writes for a pong, or the end of the context.
pub data Wake : Type 0 where
  tick : Bool → List Frame → Wake
  cancelled : Wake

-- `pinger` over the wake-ups that come: the connection, and whether the goroutine has returned.
unfoldable pub pinger : List Wake → Conn → Conn × Bool
pinger [] c = (c, false)
pinger (cancelled ∷ rest) c = (c, true)
pinger (tick accepts answers ∷ rest) c =
    let (c', answer) = ping accepts c in
    let next = pinger rest (record c' { sent = c'.sent ++ answers }) in
    if answer.stop then (c', true) else next
