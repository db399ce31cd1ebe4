-- ===== src/Client/Tcp.antt =====
-- client/tcp.go: the two copy loops of a forwarded TCP connection. The local connection is a
-- parameter: what its reads and writes answer.
pub mod Connector
pub mod Copying
use cftun.Common.{
  ℕ, ◌*◌, Bool, true, false, ◌||◌, not, Option, none, some, List, [], ◌∷◌, ◌++◌, Bytes, length,
  ◌==◌, if◌then◌else◌,
}
use cftun.Client.Argo.Gorilla.{GorillaConn, read, write}

abbrev pub default_buffer_size : ℕ
default_buffer_size = 16 * 4096

-- One round of `handleUpstream`: the flag that the loop tests, what the local connection's `Read`
-- returns, and whether the WebSocket takes the message.
pub record Sending : Type 0 where
  pub closed : Bool
  pub chunk : Option Bytes
  pub accepts : Bool

-- The WebSocket connection after the rounds that are run, and whether the loop has ended.
unfoldable pub upstream : List Sending → GorillaConn → GorillaConn × Bool
upstream [] ws = (ws, false)
upstream (t ∷ rest) ws = elim t.chunk [
  | none ↦ (ws, true)
  | some bytes ↦
      let (ws', written) = write t.accepts bytes ws in
      let more = upstream rest ws' in
      if t.closed then (ws, true) else elim written [
        | none ↦ (ws', true)
        | some n ↦ (if n == length bytes then more else (ws', true))
      ]
]

-- One round of `handleDownstream`: the flag, how much the local connection's `Write` takes, and
-- whether it fails.
pub record Receiving : Type 0 where
  pub closed : Bool
  pub taken : ℕ → ℕ
  pub failed : Bool

-- The writes to the local connection, with a buffer of `size` bytes.
unfoldable pub downstream : ℕ → List Receiving → GorillaConn → List Bytes
downstream size [] ws = []
downstream size (t ∷ rest) ws =
    let (ws', got) = read size ws in
    elim got [
      | none ↦ []
      | some bytes ↦
          let more = downstream size rest ws' in
          if t.closed
          then []
          else if t.failed || not (t.taken (length bytes) == length bytes)
          then bytes ∷ []
          else bytes ∷ more
    ]
