-- ===== src/Client/Tcp/Connector.antt =====
-- client/tcp.go: a forwarded connection as a step relation over the interleavings of `handleUpstream`
-- and `handleDownstream`, which share the flag `closed`, and the listener. Of the two connections
-- `origin` is the local one and `remote` is the WebSocket's; a goroutine goes by the one that it
-- reads from, and closes the other one.
pub mod Ended
pub mod Copied
mod Tests
use cftun.Common.{
  ℕ, ◌≡◌, Bool, true, false, Option, none, some, String, List, [], ◌∷◌, ◌++◌, Bytes, Result, ok,
  err,
}
use cftun.Client.Argo.Gorilla.{GorillaConn}
use cftun.Client.Tunnel.{Side, origin, remote, other, set_side}

-- Where a goroutine stands: at the test of the flag, in `Read`, in `Write`, behind the loop, behind
-- `Close` of the connector, at its end.
pub data Stage : Type 0 where
  testing reading leaving flagged ended : Stage
  writing : Bytes → Stage

-- `taken` are the chunks that a goroutine has read, `sent` what the writes took of them, and
-- `read_buf` what is left of a message that the WebSocket's reads have begun.
pub record TcpConnector : Type 0 where
  pub closed : Bool
  pub is_open : Side → Bool
  pub stage : Side → Stage
  pub taken : Side → List Bytes
  pub sent : Side → List Bytes
  pub read_buf : Bytes

-- `handle`
unfoldable pub handle : TcpConnector
handle = record {
  closed = false;
  is_open = λ a. true;
  stage = λ a. testing;
  taken = λ a. [];
  sent = λ a. [];
  read_buf = [];
}

-- A call on a connection that is closed here fails, but for a `Read` of the WebSocket that finds bytes
-- in its buffer; any other call may fail.
pub data Step (t : TcpConnector) : TcpConnector → Type 0 where
  test_on :
      (a : Side)
      → t.stage a ≡ testing
      → t.closed ≡ false
      → Step t (record t { stage = set_side a reading t.stage })
  test_off :
      (a : Side)
      → t.stage a ≡ testing
      → t.closed ≡ true
      → Step t (record t { stage = set_side a leaving t.stage })
  read_local :
      (chunk : Bytes)
      → t.stage origin ≡ reading
      → t.is_open origin ≡ true
      → Step t (record t {
        stage = set_side origin (writing chunk) t.stage;
        taken = set_side origin (t.taken origin ++ chunk ∷ []) t.taken;
      })
  -- a message, of which the rest is kept
  read_message :
      (chunk rest : Bytes)
      → t.stage remote ≡ reading
      → t.is_open remote ≡ true
      → t.read_buf ≡ []
      → Step t (record t {
        stage = set_side remote (writing chunk) t.stage;
        taken = set_side remote (t.taken remote ++ chunk ∷ []) t.taken;
        read_buf = rest;
      })
  read_buffered :
      (chunk rest : Bytes)
      → t.stage remote ≡ reading
      → t.read_buf ≡ chunk ++ rest
      → Step t (record t {
        stage = set_side remote (writing chunk) t.stage;
        taken = set_side remote (t.taken remote ++ chunk ∷ []) t.taken;
        read_buf = rest;
      })
  read_fails :
      (a : Side) → t.stage a ≡ reading → Step t (record t { stage = set_side a leaving t.stage })
  write :
      (a : Side) (chunk : Bytes)
      → t.stage a ≡ writing chunk
      → t.is_open (other a) ≡ true
      → Step t (record t {
        stage = set_side a testing t.stage;
        sent = set_side a (t.sent a ++ chunk ∷ []) t.sent;
      })
  -- `nw != nr`: a part of the chunk was written
  write_short :
      (a : Side) (part rest : Bytes)
      → t.stage a ≡ writing (part ++ rest)
      → t.is_open (other a) ≡ true
      → Step t (record t {
        stage = set_side a leaving t.stage;
        sent = set_side a (t.sent a ++ part ∷ []) t.sent;
      })
  write_fails :
      (a : Side) (chunk : Bytes)
      → t.stage a ≡ writing chunk
      → Step t (record t { stage = set_side a leaving t.stage })
  -- the deferred calls
  close :
      (a : Side)
      → t.stage a ≡ leaving
      → Step t (record t { closed = true; stage = set_side a flagged t.stage })
  close_connection :
      (a : Side)
      → t.stage a ≡ flagged
      → Step t (record t {
        is_open = set_side (other a) false t.is_open;
        stage = set_side a ended t.stage;
      })

pub data Reach (s : TcpConnector) : TcpConnector → Type 0 where
  here : Reach s s
  next : {t u : TcpConnector} → Reach s t → Step t u → Reach s u

-- What the listener does; connections are numbers.
pub data Event : Type 0 where
  log_error : String → Event
  log_listening : Event
  handle_tcp : ℕ → Event
  close_listener : Event

-- The loop of `TcpListen`, over what `Accept` answers: it ends at the first error. Nothing receives
-- from `errChan`, so that the send of the error is always passed over.
unfoldable pub accept_all : List (Result String ℕ) → List Event
accept_all [] = []
accept_all (err e ∷ rest) = log_error e ∷ close_listener ∷ []
accept_all (ok c ∷ rest) = handle_tcp c ∷ accept_all rest

unfoldable pub tcp_listen : Result String (Unit {0}) → List (Result String ℕ) → List Event
unfolding accept_all
tcp_listen (err e) accepts = log_error e ∷ []
tcp_listen (ok u) accepts = log_listening ∷ accept_all accepts

-- `handleTcp`: the local connection is closed, and nothing started, where there is no WebSocket.
unfoldable pub handle_tcp_conn : Result String GorillaConn → Option TcpConnector
unfolding handle
handle_tcp_conn (err e) = none
handle_tcp_conn (ok ws) = some handle
