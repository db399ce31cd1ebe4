-- ===== src/Server/Tests.antt =====
-- Runs of the server half.
use cftun.Common.{
  ℕ, zero, suc, ◌≡◌, ◌≢◌, ◌↔◌, refl, true, false, Option, none, some, String, [], ◌∷◌, Bytes,
  length, Result, ok, err,
}
use cftun.Common.{List, str_eq, ◌==◌, if◌then◌else◌}
use cftun.Common.Text.{is_empty}
use cftun.Server.Edge.{EdgeTunnelServer, resolve, ListenNetwork}
use cftun.Server.Serving.{
  ConnectionDetails, register_connection, stream, cancelled as cancelled_context, returned, running,
  serve,
}
use cftun.Server.Serving.Streams.{Repeats, managed, serve-register}
use cftun.Server.Packet.{Packet, address}
use cftun.Server.Websocket.{Conn}
use cftun.Server.Stream.Wrappers.{eof, SafeStreamCloser, NopCloserReadWriter, nop_read}
use cftun.Server.Stream.Request as Request
use cftun.Server.Stream.Request.{
  ConnectRequest, ConnectResponse, Incoming, Out, accept, network, read_connect_request_data,
}
use cftun.Server.Stream.Request.Exchange.{switching, answer, accept-answer}
use cftun.Server.Proxy.{Proxy, DialError, choose, is_ipv6, dial_with_retry, dial_func}
use cftun.Server.Proxy as Proxies
use cftun.Server.Proxy.Retry.{Settles, dial_with_retry-Settles}
use cftun.Server.Connection.{Round}
use cftun.Server.Connection.Upload.{IsSmooth}
use cftun.Server.Connection.Handler.{crashed, handle_quic_stream}
use cftun.Server.Connection.Handler.Crash.{handle_quic_stream-crashed}

abbrev conn : Conn
conn = record { done = false; inbox = (1 ∷ 2 ∷ 3 ∷ []) ∷ (4 ∷ []) ∷ []; sent = [] }

-- A stream that ends at once.
abbrev ended : NopCloserReadWriter
ended = record {
  saw_eof = false;
  closed = false;
  below = record { bytes = []; error = some eof } ∷ [];
}

ended_reads : (nop_read ended).1.error ≡ some eof
unfolding nop_read
ended_reads = refl

abbrev safe : SafeStreamCloser
safe = record {
  write_timeout = 5;
  closing = false;
  deadline = none;
  sent = [];
  write_cancelled = false;
  read_cancelled = false;
  closed = false;
}

-- A request for a TCP destination, on a stream that takes every write.
abbrev request : ConnectRequest
request = record {
  dest = "";
  conn_type = 1;
  metadata =
      record { key = "HttpHeader:Forward-Proto"; val = "tcp" }
      ∷ record { key = "HttpHeader:Forward-Dest"; val = "1.2.3.4:80" }
      ∷ [];
}

abbrev digest : String → String
digest _ = "accepted"

abbrev two_parts : ConnectResponse → Option (List Bytes)
two_parts _ = some ((0 ∷ []) ∷ (1 ∷ []) ∷ [])

abbrev readable : Incoming
readable = record { version_readable = true; decodes = true; extracted = some request }

abbrev out : Out
out = record { written = []; fates = true ∷ true ∷ [] }

abbrev dest_tcp : String × String
dest_tcp = ("tcp", "1.2.3.4:80")

accepts_tcp : (accept digest two_parts readable out).1 ≡ ok dest_tcp
unfolding accept read_connect_request_data Request.write_connect_response_data
    Request.write_data_stream_preamble Request.write_signature Request.write_version Request.put
    Request.put_all network Request.address Request.first_value
accepts_tcp = refl

accept-answer_example :
    (r : ConnectRequest) × (msg : List Bytes) × (read_connect_request_data readable ≡ ok r)
    × (dest_tcp ≡ (network r, Request.address r))
    × (two_parts (switching digest r) ≡ some msg)
    × ((accept digest two_parts readable out).0.written ≡ answer msg)
accept-answer_example = accept-answer digest two_parts readable out dest_tcp accepts_tcp

-- A timeout, and then the connection 5.
abbrev second_try : ℕ → Result DialError ℕ
second_try zero = err (Proxies.net_error true)
second_try (suc n) = ok 5

dial_with_retry-Settles_example : Settles second_try 3 0 (dial_with_retry second_try 3)
dial_with_retry-Settles_example = dial_with_retry-Settles second_try 3

abbrev packet : Packet
packet = record {
  ip_version = 4;
  protocol = 6;
  dest_ip = 1 ∷ 2 ∷ 3 ∷ 4 ∷ [];
  dest_port = 80;
  payload = [];
}

abbrev ip_print : Bytes → String
ip_print _ = "1.2.3.4"

abbrev decimal : ℕ → String
decimal _ = "80"

ip_is_four : is_ipv6 (ip_print packet.dest_ip) ≡ some false
unfolding is_ipv6
ip_is_four = refl

abbrev smooth : Round
smooth = record { cancelled = false; taken = λ n. n; failed = false }

smooth-IsSmooth : IsSmooth smooth
smooth-IsSmooth = record { live = refl; whole = λ n. refl; fine = refl }

-- The first read returns three bytes and no error.
abbrev short : NopCloserReadWriter
short = record {
  saw_eof = false;
  closed = false;
  below = record { bytes = 10 ∷ 54 ∷ 205 ∷ []; error = none } ∷ [];
}

abbrev refusing : String → String → ℕ → Result DialError ℕ
refusing network address n = err Proxies.plain_error

handle_quic_stream-crashed_example :
    (handle_quic_stream ip_print decimal refusing 32768 short (ok ("", "")) smooth [] conn
      ≡ crashed)
    ↔ (((nop_read short).1.error ≡ none) × (length (nop_read short).1.bytes ≢ 6))
handle_quic_stream-crashed_example =
    handle_quic_stream-crashed ip_print decimal refusing 32768 smooth [] conn short (ok ("", ""))

-- A resolver that knows one region.
abbrev region1 : String → Option (List String)
region1 host = if str_eq host "region1.v2.argotunnel.com" then some ("198.41.1.1" ∷ []) else none

abbrev unresolved : EdgeTunnelServer ℕ
unresolved = record { edge_ips = []; ns_result = [] }

abbrev parse_length : String → ℕ
parse_length s = if is_empty s then 0 else 1

region_known : resolve region1 [] ≢ []
region_known h = cc

-- Sockets are their ports, and any port is 4000.
abbrev bind : ListenNetwork → ℕ → Option ℕ
bind network port = some (if port == 0 then 4000 else port)

abbrev located : ConnectionDetails
located = record { uuid = []; location = "fra01"; tunnel_is_remotely_managed = true }

refused_first : Repeats none
unfolding register_connection
refused_first = refl

serve-register_example :
    (serve {S = ℕ} true (none ∷ managed located ∷ []) (stream 1 ∷ stream 2 ∷ cancelled_context ∷ [])
      ≡ record { handled = 1 ∷ 2 ∷ []; closed = true; outcome = returned none })
    × (serve {S = ℕ} true (none ∷ []) (stream 1 ∷ stream 2 ∷ cancelled_context ∷ [])
        ≡ record { handled = []; closed = false; outcome = running })
serve-register_example =
    serve-register {S = ℕ} (none ∷ []) [] located (1 ∷ 2 ∷ []) true [] (refused_first, tt) refl
