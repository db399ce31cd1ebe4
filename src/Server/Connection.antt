-- ===== src/Server/Connection.antt =====
-- server/cfd/connection.go: what the server does with one QUIC stream. The connection to the origin
-- is a parameter: what each write to it and each read from it answers.
pub mod Handler
pub mod Upload
use cftun.Common.{
  ℕ, ◌*◌, Bool, true, false, ◌||◌, not, Option, none, some, List, [], ◌∷◌, ◌++◌, Bytes, length,
  ◌==◌, if◌then◌else◌,
}
use cftun.Server.Websocket.{Conn, read, write}

-- `32<<10`
abbrev pub buffer_size : ℕ
buffer_size = 32 * 1024

-- One round of the loop of `handleConn`: whether the context is done, how many bytes of a write the
-- origin takes, and whether the write fails.
pub record Round : Type 0 where
  pub cancelled : Bool
  pub taken : ℕ → ℕ
  pub failed : Bool

-- The test of a write, `err != nil` or `nw != nr`.
abbrev pub stops : Bool → ℕ → ℕ → Bool
stops failed nw nr = failed || not (nw == nr)

-- The loop of `handleConn` with a buffer of `size` bytes: the writes to the origin, over the rounds
-- that are run.
unfoldable pub forward : ℕ → List Round → Conn → List Bytes
forward size [] c = []
forward size (r ∷ rest) c =
    let (c', got) = read size c in
    elim got [
      | none ↦ []
      | some bytes ↦
          let more = forward size rest c' in
          if r.cancelled
          then []
          else if stops r.failed (r.taken (length bytes)) (length bytes)
          then bytes ∷ []
          else bytes ∷ more
    ]

-- One round of `handleRemoteConn`: whether the context is done, whether the deadline is set, what
-- the read returns, whether the WebSocket library accepts the write.
pub record Reply : Type 0 where
  pub cancelled : Bool
  pub timed : Bool
  pub chunk : Option Bytes
  pub accepts : Bool

abbrev pub dns_port : ℕ
dns_port = 53

-- The read deadline in seconds, set on UDP connections alone.
unfoldable pub read_timeout : Bool → ℕ → Option ℕ
read_timeout is_udp port = if is_udp then some (if port == dns_port then 1 else 60) else none

-- What `handleRemoteConn` leaves behind.
pub record Ended : Type 0 where
  pub ws : Conn
  pub returned : Bool
  pub context_cancelled : Bool
  pub remote_closed : Bool

-- The deferred function, on every return.
abbrev finish : Conn → Ended
finish c = record {
  ws = record c { done = true };
  returned = true;
  context_cancelled = true;
  remote_closed = true;
}

-- The loop of `handleRemoteConn`. A write to the WebSocket connection is whole or an error.
unfoldable pub backward : List Reply → Conn → Ended
unfolding write
backward [] c = record {
  ws = c;
  returned = false;
  context_cancelled = false;
  remote_closed = false;
}
backward (r ∷ rest) c = elim r.chunk [
  | none ↦ finish c
  | some bytes ↦
      let (c', (failure, n)) = write r.accepts bytes c in
      let more = backward rest c' in
      if r.cancelled || not r.timed then finish c else elim failure [
        | none ↦ (if n == length bytes then more else finish c')
        | some e ↦ finish c'
      ]
]
