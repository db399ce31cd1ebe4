-- ===== src/Client/Tunnel/Queues.antt =====
-- client/tun/tunnel/tunnel.go: the queues of the tunnel as a step relation over every interleaving of
-- the calls of HandleTCP and HandleUDP, of ProcessAsync, Close and SetDialer, of the loop of
-- `process`, and of the handlers that it starts. The queues have no buffer, so that a call waits
-- until the loop receives from it.
pub mod Served
mod Tests
use cftun.Common.{ℕ, ◌*◌, ◌≡◌, Bool, true, false, Option, none, some, List, [], ◌∷◌, ◌++◌}

-- udpSessionTimeout, in seconds.
abbrev pub udp_session_timeout : ℕ
udp_session_timeout = 60

-- A connection, by the queue that it came through.
pub data Call : Type 0 where
  tcp udp : ℕ → Call

pub data Process : Type 0 where
  unstarted selecting returned : Process

-- `proc_cancel` is whether `procCancel` is the context's function, and no longer the first one,
-- which does nothing. Dialers are known by their number. `started` are handlers that have not yet
-- asked for the dialer.
pub record Tunnel : Type 0 where
  pub waiting : List Call
  pub started : List Call
  pub dialed : List (Call × ℕ)
  pub dialer : ℕ
  pub udp_timeout : ℕ
  pub proc_once : Bool
  pub proc_cancel : Bool
  pub cancelled : Bool
  pub process : Process

-- `New`
unfoldable pub new_tunnel : ℕ → Tunnel
new_tunnel dialer = record {
  waiting = [];
  started = [];
  dialed = [];
  dialer = dialer;
  udp_timeout = udp_session_timeout;
  proc_once = false;
  proc_cancel = false;
  cancelled = false;
  process = unstarted;
}

-- The calls of the tunnel's methods.
pub data Event : Type 0 where
  handled : Call → Event
  processed closed : Event
  dialer_set : ℕ → Event

pub data Step (s : Tunnel) : Option Event → Tunnel → Type 0 where
  handle : (c : Call) → Step s (some (handled c)) (record s { waiting = s.waiting ++ c ∷ [] })
  -- process
  receive :
      (front : List Call) (c : Call) (back : List Call)
      → s.process ≡ selecting
      → s.waiting ≡ front ++ c ∷ back
      → Step s none (record s { waiting = front ++ back; started = s.started ++ c ∷ [] })
  context_done :
      s.process ≡ selecting → s.cancelled ≡ true → Step s none (record s { process = returned })
  -- ProcessAsync
  process_first :
      s.proc_once ≡ false
      → Step s
          (some processed)
          (record s { proc_once = true; proc_cancel = true; process = selecting })
  process_again : s.proc_once ≡ true → Step s (some processed) s
  -- Close
  close_nop : s.proc_cancel ≡ false → Step s (some closed) s
  close : s.proc_cancel ≡ true → Step s (some closed) (record s { cancelled = true })
  -- SetDialer and SetUDPTimeout
  set_dialer : (d : ℕ) → Step s (some (dialer_set d)) (record s { dialer = d })
  set_udp_timeout : (timeout : ℕ) → Step s none (record s { udp_timeout = timeout })
  -- a handler calls `Dialer`
  dial :
      (front : List Call) (c : Call) (back : List Call)
      → s.started ≡ front ++ c ∷ back
      → Step s none (record s { started = front ++ back; dialed = s.dialed ++ (c, s.dialer) ∷ [] })

-- The states that are reached, with the calls before them, the last one first.
pub data Reach (s : Tunnel) : List Event → Tunnel → Type 0 where
  here : Reach s [] s
  next : {h : List Event} {t u : Tunnel} → Reach s h t → Step t none u → Reach s h u
  event :
      {h : List Event} {t u : Tunnel} {e : Event}
      → Reach s h t
      → Step t (some e) u
      → Reach s (e ∷ h) u
