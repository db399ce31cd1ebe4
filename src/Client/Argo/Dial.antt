-- ===== src/Client/Argo/Dial.antt =====
-- `Argo` of client/tun/proxy/argo.go: what a flow gets from the dialer, with the header where the
-- handshake named no destination.
use cftun.Common.{true, if◌then◌else◌, Option, none, some, List, Bytes}
use cftun.Client.Metadata.{Metadata}
use cftun.Client.Argo.Header.{ArgoConn, IoResult, parse_header, new_conn, write_all}
use cftun.Client.Argo.Pool.{Link, Answer, answered, refused}

-- What `Dial` returns: the error of the dialer, a connection as it is, or one with a header. It
-- panics where the header cannot be made.
pub data Dialed : Type 0 where
  failed panicked : Dialed
  bare : Link → Dialed
  headed : Link → ArgoConn → Dialed

unfoldable pub with_header : Link → Option ArgoConn → Dialed
with_header c none = panicked
with_header c (some w) = headed c w

unfoldable pub dial : Metadata → Answer → Dialed
unfolding with_header
dial m refused = failed
dial m (answered c header_sent) =
    if header_sent then bare c else with_header c (parse_header m new_conn)

-- `argoConn.Read`, over what the connection below answers.
unfoldable pub read : IoResult → IoResult
read below = if below.failed then record { n = 0; failed = true } else below

-- The connection below, and the messages that it is given for some payloads.
unfoldable pub messages : (Bytes → IoResult) → List Bytes → Dialed → Option (Link × List Bytes)
unfolding write_all
messages below ps failed = none
messages below ps panicked = none
messages below ps (bare c) = some (c, ps)
messages below ps (headed c w) = some (c, (write_all below w ps).sent)
