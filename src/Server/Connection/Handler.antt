-- ===== src/Server/Connection/Handler.antt =====
-- `handleQuicStream` and `handleConn`: from a QUIC stream to an origin. The origin's dialer, the
-- prints of addresses and ports, and the outcome of `Accept` are parameters.
pub mod Crash
use cftun.Common.{
  ℕ, Bool, true, false, ◌||◌, Option, none, some, String, List, [], ◌∷◌, Bytes, length, ◌==◌,
  if◌then◌else◌, Result, ok, err,
}
use cftun.Common.Text.{is_empty}
use cftun.Server.Packet.{Packet, decode, protocol, address}
use cftun.Server.Proxy.{DialError, dial_with_retry}
use cftun.Server.Stream.Wrappers.{NopCloserReadWriter, ReadResult, nop_read}
use cftun.Server.Stream.Request.{StreamError}
use cftun.Server.Websocket.{Conn, read}
use cftun.Server.Connection.{Round, stops, forward}

-- What the origin sees: the network and address dialed, the writes, and whether the way back runs.
pub record Served : Type 0 where
  pub dialed : Option (String × String)
  pub writes : List Bytes
  pub relayed : Bool

abbrev pub nothing : Served
nothing = record { dialed = none; writes = []; relayed = false }

-- `crashed` is a nil dereference, which ends the process.
pub data Fate : Type 0 where
  crashed dropped : Fate
  served : Served → Fate

abbrev pub max_retries : ℕ
max_retries = 3

module _ {C : Type 0} (ip_string : Bytes → String) (itoa : ℕ → String)
    (attempt : String → String → ℕ → Result DialError C) where
  -- `DialWithRetry(network, address, 3)`
  unfoldable pub dial : String → String → Option C
  dial network address = elim (dial_with_retry (attempt network address) max_retries).0 [
    | ok c ↦ some c
    | err e ↦ none
  ]

  -- The branch of `handleConn` for a stream whose request named no destination: the first message
  -- has it. `first` answers the write of its payload, and `rounds` the loop behind it.
  unfoldable pub handle_packet : ℕ → Round → List Round → Packet → Conn → Served
  handle_packet size first rounds p ws =
      let dest : String × String = (protocol p, address ip_string itoa p) in
      let n = length p.payload in
      elim (dial dest.0 dest.1) [
        | none ↦ record nothing { dialed = some dest }
        | some c ↦
            if stops first.failed (first.taken n) n
            then record { dialed = some dest; writes = p.payload ∷ []; relayed = false }
            else record {
              dialed = some dest;
              writes = p.payload ∷ forward size rounds ws;
              relayed = true;
            }
      ]

  unfoldable pub handle_first : ℕ → Round → List Round → Conn → Served
  handle_first size first rounds ws =
      let (ws', got) = read size ws in
      elim got [
        | none ↦ nothing
        | some buf ↦ elim (decode buf) [
          | err e ↦ nothing
          | ok p ↦ handle_packet size first rounds p ws'
        ]
      ]

  -- `handleConn` with the connection that was dialed for the request, or nil.
  unfoldable pub handle_conn : ℕ → Option (String × String) → Round → List Round → Conn → Served
  handle_conn size none first rounds ws = handle_first size first rounds ws
  handle_conn size (some dest) first rounds ws = record {
    dialed = some dest;
    writes = forward size rounds ws;
    relayed = true;
  }

  -- What follows `Accept`.
  unfoldable pub handle_accepted :
      ℕ → Result StreamError (String × String) → Round → List Round → Conn → Fate
  handle_accepted size (err e) first rounds ws = dropped
  handle_accepted size (ok (network, address)) first rounds ws =
      if is_empty network || is_empty address
      then served (handle_conn size none first rounds ws)
      else elim (dial network address) [
        | none ↦ dropped
        | some c ↦ served (handle_conn size (some (network, address)) first rounds ws)
      ]

  -- The six bytes of the signature are read with one `Read`. Where it returns fewer and no error,
  -- `err.Error()` is a call on nil.
  unfoldable pub handle_quic_stream :
      ℕ
      → NopCloserReadWriter
      → Result StreamError (String × String)
      → Round
      → List Round
      → Conn
      → Fate
  handle_quic_stream size np accepted first rounds ws =
      let (np', r) = nop_read np in
      elim r.error [
        | some e ↦ dropped
        | none ↦
            if length r.bytes == 6 then handle_accepted size accepted first rounds ws else crashed
      ]
