-- ===== src/Client/Tunnel/Queues/Tests.antt =====
-- Runs of the queues.
use cftun.Common.{◌≡◌, refl, Bool, true, false, [], ◌∷◌, count}
use cftun.Client.Tunnel.Queues.{
  Call, tcp, udp, selecting, returned, Tunnel, new_tunnel, handled, processed, closed, handle,
  receive, context_done, process_first, close, dial, Reach, here, next, event,
}
use cftun.Client.Tunnel.Queues.Served.{
  offered, ran, stopped, held, IsBehind, Reach-served, Reach-IsBehind,
}

-- Two connections come, the loop starts and takes the second one, and the tunnel is closed.
abbrev t1 : Tunnel
t1 = record {
  waiting = tcp 1 ∷ [];
  started = udp 2 ∷ [];
  dialed = [];
  dialer = 9;
  udp_timeout = 60;
  proc_once = true;
  proc_cancel = true;
  cancelled = true;
  process = selecting;
}

abbrev t2 : Tunnel
t2 = record t1 { process = returned }

closing : Reach (new_tunnel 9) (closed ∷ processed ∷ handled (udp 2) ∷ handled (tcp 1) ∷ []) t2
unfolding new_tunnel
closing =
    next
      (event
        (next (event (event (event here (handle (tcp 1))) (handle (udp 2))) (process_first refl))
          (receive (tcp 1 ∷ []) (udp 2) [] refl refl))
        (close refl))
      (context_done refl refl)

abbrev is_tcp : Call → Bool
is_tcp (tcp n) = true
is_tcp (udp n) = false

Reach-served_example :
    (held is_tcp t2
      ≡ count is_tcp (offered (closed ∷ processed ∷ handled (udp 2) ∷ handled (tcp 1) ∷ [])))
    × (ran (closed ∷ processed ∷ handled (udp 2) ∷ handled (tcp 1) ∷ []) ≡ true
        → stopped (closed ∷ processed ∷ handled (udp 2) ∷ handled (tcp 1) ∷ []) ≡ false
        → t2.process ≡ selecting)
    × (t2.process ≡ returned
        → (ran (closed ∷ processed ∷ handled (udp 2) ∷ handled (tcp 1) ∷ []) ≡ true)
          × (stopped (closed ∷ processed ∷ handled (udp 2) ∷ handled (tcp 1) ∷ []) ≡ true))
Reach-served_example = Reach-served 9 is_tcp closing

-- The handler that was started dials, and the first connection waits on.
abbrev t3 : Tunnel
t3 = record t2 { started = []; dialed = (udp 2, 9) ∷ [] }

Reach-IsBehind_example : IsBehind t2 t3
Reach-IsBehind_example = Reach-IsBehind refl refl (next here (dial [] (udp 2) [] refl))
