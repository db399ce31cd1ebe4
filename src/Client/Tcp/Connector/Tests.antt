-- ===== src/Client/Tcp/Connector/Tests.antt =====
-- Runs of a forwarded connection.
use cftun.Common.{◌+◌, ◌≤◌, ◌≡◌, refl, true, false, [], ◌∷◌, ◌++◌, length, flatten, Bytes, ok, err}
use cftun.Client.Tunnel.{origin, remote, set_side}
use cftun.Client.Tcp.Connector.{
  testing, reading, writing, leaving, flagged, ended, TcpConnector, handle, test_on, read_message,
  read_fails, write, close, close_connection, Reach, here, next, log_error, log_listening,
  handle_tcp, close_listener, tcp_listen,
}
use cftun.Client.Tcp.Connector.Copied.{Reach-copied}
use cftun.Client.Tcp.Connector.Ended.{buffered, ended-IsCutOff}

-- The WebSocket's goroutine holds a chunk when the local connection ends.
abbrev c1 : TcpConnector
c1 = record {
  closed = true;
  is_open = set_side remote false (λ a. true);
  stage = set_side origin ended (
      set_side origin flagged (
        set_side origin leaving (
          set_side origin reading
            (set_side remote (writing (7 ∷ [])) (set_side remote reading (λ a. testing))))));
  taken = set_side remote ((7 ∷ []) ∷ []) (λ a. []);
  sent = λ a. [];
  read_buf = [];
}

over : Reach handle c1
unfolding handle
over =
    next
      (next
        (next
          (next
            (next (next here (test_on remote refl refl)) (read_message (7 ∷ []) [] refl refl refl))
            (test_on origin refl refl))
          (read_fails origin refl))
        (close origin refl))
      (close_connection origin refl)

-- It writes the chunk, and ends by the flag.
abbrev c2 : TcpConnector
c2 = record c1 {
  stage = set_side remote testing c1.stage;
  sent = set_side remote ((7 ∷ []) ∷ []) c1.sent;
}

written : Reach c1 c2
written = next here (write remote (7 ∷ []) refl refl)

Reach-copied_example :
    ((lost : Bytes) × (flatten (c1.sent remote) ++ lost ≡ flatten (c1.taken remote)))
    × (c1.stage remote ≡ testing → c1.sent remote ≡ c1.taken remote)
    × (c1.stage remote ≡ reading → c1.sent remote ≡ c1.taken remote)
    × ((chunk : Bytes)
        → c1.stage remote ≡ writing chunk
        → c1.sent remote ++ chunk ∷ [] ≡ c1.taken remote)
Reach-copied_example = Reach-copied remote over

ended-IsCutOff_example :
    (c1.closed ≡ true)
    × (c2.is_open remote ≡ false)
    × (length (c2.taken remote) ≤ length (c1.taken remote) + 1)
    × (flatten (c2.taken remote) ++ buffered remote c2
        ≡ flatten (c1.taken remote) ++ buffered remote c1)
    × (length (c2.sent remote) ≤ length (c1.sent remote) + 1)
    × ((lost : Bytes) × (flatten (c2.sent remote) ++ lost ≡ flatten (c2.taken remote)))
ended-IsCutOff_example = ended-IsCutOff origin over refl written

-- The listener ends at the first error of `Accept`.
listened :
    tcp_listen (ok tt) (ok 1 ∷ ok 2 ∷ err "accept" ∷ ok 3 ∷ [])
    ≡ log_listening ∷ handle_tcp 1 ∷ handle_tcp 2 ∷ log_error "accept" ∷ close_listener ∷ []
unfolding tcp_listen
listened = refl
