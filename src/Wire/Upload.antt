-- ===== src/Wire/Upload.antt =====
-- A forwarded TCP connection from the client's reads to the origin, where the handshake named the
-- destination.
use cftun.Common.{Bool, ◌≤◌, ◌≡◌, ◌↔◌, ap, ◌∙◌, List, [], ◌++◌, flatten, Bytes, All, length}
use cftun.Client.Argo.Gorilla.{GorillaConn}
use cftun.Client.Tcp.{Sending, upstream}
use cftun.Client.Tcp.Copying.{Copy, upstream-Copy}
use cftun.Server.Websocket.{Conn}
use cftun.Server.Connection.{Round, buffer_size, forward}
use cftun.Server.Connection.Upload.{IsSmooth, forward_intact}

-- Let the WebSocket take every message of the client, whose connection is new, the origin take
-- every write whole, the context not be done, and the server run a round for each message. The
-- bytes that the client read from the local connection then reach the origin unchanged exactly when
-- no single read returned more than the server's buffer of 32 KiB, although the client reads up to
-- 64 KiB.
pub upload_intact :
    (ts : List Sending) (chunks : List Bytes) (ws : GorillaConn) (rounds : List Round) (conn : Conn)
    → ws.outbox ≡ []
    → Copy ts chunks
    → All IsSmooth rounds
    → length chunks ≤ length rounds
    → (flatten (forward buffer_size rounds (record conn { inbox = (upstream ts ws).0.outbox }))
        ≡ flatten chunks)
      ↔ All (λ chunk. length chunk ≤ buffer_size) chunks
upload_intact ts chunks ws rounds conn fresh copied s enough =
    let sent : (upstream ts ws).0.outbox ≡ chunks =
      ap (λ (r : GorillaConn × Bool). r.0.outbox) (upstream-Copy ts chunks ws copied)
      ∙ ap (λ (o : List Bytes). o ++ chunks) fresh in
    rw sent (forward_intact buffer_size rounds (record conn { inbox = chunks }) s enough)
