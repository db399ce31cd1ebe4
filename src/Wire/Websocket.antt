-- ===== src/Wire/Websocket.antt =====
-- The two wrappers of a WebSocket on the server's side: `Conn` of
-- client/tun/transport/argo/connection.go and `Conn` of server/cfd/websocket.go.
use cftun.Common.{
  ℕ, ◌≡◌, refl, Bool, true, false, not, Bool-cases, inl, inr, Option, none, some, List, [], ◌∷◌,
  ◌++◌, Bytes, arith,
}
use cftun.Client.Argo.Conn
use cftun.Client.Argo.Conn.{
  Conn, Message, binary, op_ping, control, Signal, ticked, cancelled, closed,
}
use cftun.Server.Websocket
use cftun.Server.Websocket.{Frame, Wake, tick, closed_connection, write_failed}

frame : Message → Frame
frame (binary p) = Frame.binary p
frame op_ping = Frame.ping_frame
frame control = Frame.control_frame

frames : List Message → List Frame
unfolding frame
frames [] = []
frames (m ∷ ms) = frame m ∷ frames ms

-- A connection of the client's package as one of the server's.
pub conn : Conn → Websocket.Conn
conn c = record { done = c.done; inbox = c.incoming; sent = frames c.written }

frames-append : (ms ns : List Message) → frames (ms ++ ns) ≡ frames ms ++ frames ns
unfolding frames
frames-append [] ns = refl
frames-append (m ∷ ms) ns = rw (frames-append ms ns)

write_error : Option Conn.WriteError → Option Websocket.WriteError
write_error none = none
write_error (some closed) = some closed_connection
write_error (some Conn.write_error) = some write_failed

wake : Signal → Wake
unfolding frames
wake (ticked failed answers) = tick (not failed) (frames answers)
wake cancelled = Wake.cancelled

wakes : List Signal → List Wake
unfolding wake
wakes [] = []
wakes (s ∷ rest) = wake s ∷ wakes rest

-- The answer of `ping` on the server.
pinged : Bool × Option Conn.WriteError → Websocket.Pinged
pinged (stop, none) = record { stop = stop; failed = false }
pinged (stop, some e) = record { stop = stop; failed = true }

read-conn :
    (len : ℕ) (c : Conn)
    → Websocket.read len (conn c) ≡ (conn (Conn.read len c).0, (Conn.read len c).1)
unfolding Websocket.read Conn.read conn
read-conn len c = ground arith

write-conn :
    (failed : Bool) (p : Bytes) (c : Conn)
    → Websocket.write (not failed) p (conn c)
      ≡ (let (c', (e, n)) = Conn.write failed p c in (conn c', (write_error e, n)))
unfolding Websocket.write Conn.write conn write_error frames frame
write-conn failed p c = ground (arith, frames-append c.written (binary p ∷ []))

ping-conn :
    (failed : Bool) (c : Conn)
    → Websocket.ping (not failed) (conn c)
      ≡ (conn (Conn.ping failed c).0, pinged (Conn.ping failed c).1)
unfolding Websocket.ping Conn.ping conn pinged frames frame
ping-conn failed c = ground (arith, frames-append c.written (op_ping ∷ []))

close-conn : (c : Conn) → Websocket.close (conn c) ≡ conn (Conn.close c)
unfolding Websocket.close Conn.close conn
close-conn c = refl

pinged-stop : (a : Bool × Option Conn.WriteError) → (pinged a).stop ≡ a.0
unfolding pinged
pinged-stop (stop, none) = refl
pinged-stop (stop, some e) = refl

-- A connection on which the answers are written.
answer-conn :
    (c : Conn) (answers : List Message)
    → conn (record c { written = c.written ++ answers })
      ≡ record (conn c) { sent = (conn c).sent ++ frames answers }
unfolding conn
answer-conn c answers = ground (arith, frames-append c.written answers)

pinger-conn :
    (signals : List Signal) (c : Conn)
    → Websocket.pinger (wakes signals) (conn c)
      ≡ (conn (Conn.pinger signals c).0, (Conn.pinger signals c).1)
unfolding Websocket.pinger Conn.pinger wakes wake
pinger-conn [] c = refl
pinger-conn (cancelled ∷ rest) c = refl
pinger-conn (ticked failed answers ∷ rest) c =
    let ih =
      pinger-conn rest
        (let c' = (Conn.ping failed c).0 in record c' { written = c'.written ++ answers }) in
    rw (ping-conn failed c, pinged-stop (Conn.ping failed c).1)
      (elim (Bool-cases (Conn.ping failed c).1.0) [
        | inl stop ↦ rw (stop, Conn.pinger)
        | inr on ↦ rw (on, Conn.pinger) (rw (← answer-conn (Conn.ping failed c).0 answers) ih)
      ])

-- The methods, with the environment's part of each, and what they answer.
pub data Call : Type 0 where
  read_call : ℕ → Call
  write_call : Bool → Bytes → Call
  ping_call : Bool → Call
  pinger_call : List Signal → Call
  close_call : Call

pub data Answer : Type 0 where
  was_read : Option Bytes → Answer
  was_written : Option Websocket.WriteError × ℕ → Answer
  was_pinged : Websocket.Pinged → Answer
  has_returned : Bool → Answer
  was_closed : Answer

client_call : Call → Conn → Conn × Answer
unfolding write_error pinged
client_call (read_call len) c = let (c', got) = Conn.read len c in (c', was_read got)
client_call (write_call failed p) c =
    let (c', (e, n)) = Conn.write failed p c in (c', was_written (write_error e, n))
client_call (ping_call failed) c =
    let (c', answer) = Conn.ping failed c in (c', was_pinged (pinged answer))
client_call (pinger_call signals) c =
    let (c', over) = Conn.pinger signals c in (c', has_returned over)
client_call close_call c = (Conn.close c, was_closed)

server_call : Call → Websocket.Conn → Websocket.Conn × Answer
unfolding wakes
server_call (read_call len) c = let (c', got) = Websocket.read len c in (c', was_read got)
server_call (write_call failed p) c =
    let (c', answer) = Websocket.write (not failed) p c in (c', was_written answer)
server_call (ping_call failed) c =
    let (c', answer) = Websocket.ping (not failed) c in (c', was_pinged answer)
server_call (pinger_call signals) c =
    let (c', over) = Websocket.pinger (wakes signals) c in (c', has_returned over)
server_call close_call c = (Websocket.close c, was_closed)

-- The connection after the calls, and their answers in order.
pub client_calls : List Call → Conn → Conn × List Answer
unfolding client_call
client_calls [] c = (c, [])
client_calls (k ∷ ks) c =
    let (c', a) = client_call k c in let (c'', as') = client_calls ks c' in (c'', a ∷ as')

pub server_calls : List Call → Websocket.Conn → Websocket.Conn × List Answer
unfolding server_call
server_calls [] c = (c, [])
server_calls (k ∷ ks) c =
    let (c', a) = server_call k c in let (c'', as') = server_calls ks c' in (c'', a ∷ as')

call-conn :
    (k : Call) (c : Conn) → server_call k (conn c) ≡ (conn (client_call k c).0, (client_call k c).1)
unfolding client_call server_call
call-conn (read_call len) c = rw (read-conn len c)
call-conn (write_call failed p) c = rw (write-conn failed p c)
call-conn (ping_call failed) c = rw (ping-conn failed c)
call-conn (pinger_call signals) c = rw (pinger-conn signals c)
call-conn close_call c = rw (close-conn c)

-- The two wrappers do the same: whatever methods are called in whatever order, and whatever the
-- WebSocket library reads and refuses, they write the same frames, have the same messages left, and
-- give the same answers.
pub calls-conn :
    (ks : List Call) (c : Conn)
    → server_calls ks (conn c) ≡ (conn (client_calls ks c).0, (client_calls ks c).1)
unfolding client_calls server_calls
calls-conn [] c = refl
calls-conn (k ∷ ks) c = rw (call-conn k c, calls-conn ks (client_call k c).0)
