-- ===== src/Client/Argo/Conn.antt =====
-- `Conn` of client/tun/transport/argo/connection.go, which has no user in the repository: the side of
-- a WebSocket server, over a reader and writer. The WebSocket library is a parameter: the messages
-- that it reads, and whether a write fails.
use cftun.Common.{
  ℕ, ◌*◌, ◌/◌, Bool, true, false, Option, none, some, List, [], ◌∷◌, ◌++◌, Bytes, length, take,
}

-- What is written to `rw`.
pub data Message : Type 0 where
  binary : Bytes → Message
  op_ping control : Message

pub record Conn : Type 0 where
  pub incoming : List Bytes
  pub written : List Message
  pub done : Bool

-- In seconds.
abbrev pub default_pong_wait : ℕ
default_pong_wait = 60

abbrev pub default_ping_period : ℕ
default_ping_period = default_pong_wait * 9 / 10

unfoldable pub ping_period : Option ℕ → ℕ
ping_period (some period) = period
ping_period none = default_ping_period

-- The messages that are left, and what is copied to a reader of this length.
unfoldable pub receive : ℕ → List Bytes → List Bytes × Option Bytes
receive len [] = ([], none)
receive len (message ∷ rest) = (rest, some (take len message))

unfoldable pub read : ℕ → Conn → Conn × Option Bytes
unfolding receive
read len c = let (rest, copied) = receive len c.incoming in (record c { incoming = rest }, copied)

pub data WriteError : Type 0 where
  closed write_error : WriteError

-- What follows the test of `done` in `Write`; the flag says whether the write fails.
unfoldable pub write_binary : Bool → Bytes → Conn → Conn × (Option WriteError × ℕ)
write_binary false p c = (record c { written = c.written ++ binary p ∷ [] }, (none, length p))
write_binary true p c = (c, (some write_error, 0))

unfoldable pub write : Bool → Bytes → Conn → Conn × (Option WriteError × ℕ)
unfolding write_binary
write failed p c = elim c.done [ true ↦ (c, (some closed, 0)) | false ↦ write_binary failed p c ]

unfoldable pub write_ping : Bool → Conn → Conn × (Bool × Option WriteError)
write_ping false c = (record c { written = c.written ++ op_ping ∷ [] }, (false, none))
write_ping true c = (c, (false, some write_error))

-- Whether the connection is done, and the error.
unfoldable pub ping : Bool → Conn → Conn × (Bool × Option WriteError)
unfolding write_ping
ping failed c = elim c.done [ true ↦ (c, (true, none)) | false ↦ write_ping failed c ]

unfoldable pub close : Conn → Conn
close c = record c { done = true }

-- What `select` finds in `pinger`: a tick, with the fate of the ping's write and what the handler
-- of control messages writes, or the end of the context.
pub data Signal : Type 0 where
  ticked : Bool → List Message → Signal
  cancelled : Signal

-- The connection after the signals, and whether `pinger` has returned.
unfoldable pub pinger : List Signal → Conn → Conn × Bool
unfolding ping
pinger [] c = (c, false)
pinger (cancelled ∷ rest) c = (c, true)
pinger (ticked failed answers ∷ rest) c =
    let (c', (stop, error)) = ping failed c in
    elim stop [
      | true ↦ (c', true)
      | false ↦ pinger rest (record c' { written = c'.written ++ answers })
    ]
