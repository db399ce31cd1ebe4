-- ===== src/Server/Websocket/Closing.antt =====
-- After `Close` the connection writes nothing more, and the pinger ends at its next tick.
use cftun.Common.{ℕ, ◌≡◌, refl, ◌∙◌, Bool, true, some, List, [], ◌∷◌, Bytes, arith}
use cftun.Server.Websocket.{
  Conn, Frame, Wake, tick, read, write, ping, close, pinger, closed_connection,
}

-- The methods of a connection, with the environment's part of each.
pub data Call : Type 0 where
  call_read : ℕ → Call
  call_write : Bool → Bytes → Call
  call_ping : Bool → Call
  call_close : Call

unfoldable pub call : Call → Conn → Conn
call (call_read len) c = (read len c).0
call (call_write accepts p) c = (write accepts p c).0
call (call_ping accepts) c = (ping accepts c).0
call call_close c = close c

unfoldable pub calls : List Call → Conn → Conn
calls [] c = c
calls (k ∷ ks) c = calls ks (call k c)

call_done :
    (k : Call) (c : Conn) → c.done ≡ true → ((call k c).done ≡ true) × ((call k c).sent ≡ c.sent)
unfolding call read write ping close
call_done (call_read len) c h = ground arith
call_done (call_write accepts p) c h = ground arith
call_done (call_ping accepts) c h = ground arith
call_done call_close c h = ground arith

calls_done :
    (ks : List Call) (c : Conn)
    → c.done ≡ true
    → ((calls ks c).done ≡ true) × ((calls ks c).sent ≡ c.sent)
unfolding calls
calls_done [] c h = (h, refl)
calls_done (k ∷ ks) c h =
    let (still, same) = call_done k c h in
    let (end, kept) = calls_done ks (call k c) still in (end, kept ∙ same)

-- Whatever is called after `Close`, in any order, no frame goes out any more, and a write then
-- returns the error of a closed connection, and counts no byte.
pub calls-close :
    (ks : List Call) (c : Conn) (accepts : Bool) (p : Bytes)
    → ((calls ks (close c)).sent ≡ c.sent)
      × ((write accepts p (calls ks (close c))).1 ≡ (some closed_connection, 0))
unfolding close write
calls-close ks c accepts p =
    let (end, kept) = calls_done ks (record c { done = true }) refl in (kept, ground arith)

-- A pinger whose connection is closed returns at its next tick and sends nothing.
pub pinger-close :
    (c : Conn) (accepts : Bool) (answers : List Frame) (rest : List Wake)
    → pinger (tick accepts answers ∷ rest) (close c) ≡ (close c, true)
unfolding pinger ping close
pinger-close c accepts answers rest = refl
