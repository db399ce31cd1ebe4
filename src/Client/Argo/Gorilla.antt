-- ===== src/Client/Argo/Gorilla.antt =====
-- client/tun/transport/argo/connection.go, `GorillaConn`: a byte stream over WebSocket messages.
-- The WebSocket below is a parameter: the messages that `ReadMessage` returns before it fails.
pub mod Stream
use cftun.Common.{
  ℕ, zero, suc, ◌+◌, ◌<◌, ◌≡◌, Bool, true, false, Option, none, some, List, [], ◌∷◌, ◌++◌, Bytes,
  length, take, drop, ltb, if◌then◌else◌,
}

pub record GorillaConn : Type 0 where
  pub read_buf : Bytes
  pub inbox : List Bytes
  pub outbox : List Bytes

-- The branch that waits for a message; what does not fit is kept.
unfoldable pub read_message : ℕ → GorillaConn → List Bytes → GorillaConn × Option Bytes
read_message len c [] = (c, none)
read_message len c (message ∷ rest) =
    (record c { read_buf = c.read_buf ++ drop len message; inbox = rest }, some (take len message))

-- `Read(p)` with `len(p)` given; `none` is an error.
unfoldable pub read : ℕ → GorillaConn → GorillaConn × Option Bytes
unfolding read_message
read len c =
    if ltb 0 (length c.read_buf)
    then (record c { read_buf = drop len c.read_buf }, some (take len c.read_buf))
    else read_message len c c.inbox

-- `Write(p)`; `accepts` says whether `WriteMessage` succeeds.
unfoldable pub write : Bool → Bytes → GorillaConn → GorillaConn × Option ℕ
write accepts p c =
    if accepts then (record c { outbox = c.outbox ++ p ∷ [] }, some (length p)) else (c, none)

pub data DeadlineError : Type 0 where
  read_deadline write_deadline : DeadlineError

-- `SetDeadline`: the write deadline is not touched when the read deadline is refused. The state is
-- the pair of deadlines, and the two flags say which call succeeds.
unfoldable pub set_deadline : Bool → Bool → ℕ → ℕ × ℕ → (ℕ × ℕ) × Option DeadlineError
set_deadline reads writes t (r, w) =
    if reads
    then (if writes then ((t, t), none) else ((t, w), some write_deadline))
    else ((r, w), some read_deadline)
