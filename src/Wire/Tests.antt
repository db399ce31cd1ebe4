-- ===== src/Wire/Tests.antt =====
-- Runs of the two halves together.
use text.Mathlib.TextLemmas.{append_cancel_left}
use cftun.Common.Text.{◌<>◌}
use cftun.Common.{
  zero, ap, sym, str_eq, eq_iff, ℕ, suc, ◌≤◌, ◌<◌, ◌≡◌, ◌↔◌, refl, inl, Bool, true, false, none,
  some, String, List, [], ◌∷◌, flatten, map, Bytes, All, length, take, arith, Result, ok, err,
}
use cftun.Client.Metadata.{
  as_slice, Metadata, AddrPort, four, IsFlow, is4, is_valid, network_string, destination_address,
}
use cftun.Client.Argo.Header.{ArgoConn, IoResult, parse_header, write, write_all, new_conn}
use cftun.Client.Argo.Websocket.{Params, Header, get_header}
use cftun.Client.Tcp.{Sending, upstream}
use cftun.Server.Packet.{Packet, missing_port_fields, decode, protocol, address}
use cftun.Server.Proxy.{net_error, is_retryable_error, DialError, dial_with_retry, retry_from}
use cftun.Server.Stream.Request as Request
use cftun.Server.Stream.Request.{first_value}
use cftun.Server.Websocket.{Conn}
use cftun.Server.Connection.{Round, buffer_size, forward}
use cftun.Server.Connection.Upload.{IsSmooth}
use cftun.Server.Connection.Handler.{served, dial, handle_accepted}
use cftun.Wire.{encode}
use cftun.Wire.Decoding.{IsSized, encode-decode}
use cftun.Wire.Encoding.{packet_of, decode-write}
use cftun.Client.Metadata.{EndpointId, metadata_for}
use cftun.Wire.Flow.{IsOctets, parse_header-metadata_for}
use cftun.Wire.Request.{Edge, request_for, request_destination}
use cftun.Wire.Session.{session}
use cftun.Wire.Dial.{IsFor, Reaches, dial-Reaches}
use cftun.Client.Argo.Pool as Pool
use cftun.Common.Int.{◌+ℤ◌}
use cftun.Client.Argo.Conn
use cftun.Client.Argo.Conn.{ticked, cancelled}
use cftun.Wire.Websocket.{
  Call, read_call, write_call, pinger_call, close_call, conn, client_calls, server_calls,
  calls-conn,
}
use cftun.Wire.Upload.{upload_intact}

-- UDP to 1.2.3.4:53
abbrev dns : Metadata
dns = record {
  network = 17;
  ip_version = 4;
  src_ip = four (10 ∷ 0 ∷ 0 ∷ 1 ∷ []);
  dst_ip = four (1 ∷ 2 ∷ 3 ∷ 4 ∷ []);
  src_port = 4000;
  dst_port = 53;
}

dns-IsFlow : IsFlow dns
unfolding is_valid is4
dns-IsFlow = record {
  addr = omega arith;
  valid = refl;
  version = refl;
  port = omega arith;
  network = omega arith;
}

dns-IsSized : IsSized (packet_of dns (7 ∷ 8 ∷ 9 ∷ []))
unfolding as_slice
dns-IsSized = inl (refl, refl)

-- A packet for 1.2.3.4:53 on the wire.
abbrev message : Bytes
message = 4 ∷ 17 ∷ 1 ∷ 2 ∷ 3 ∷ 4 ∷ 0 ∷ 53 ∷ 7 ∷ 8 ∷ []

abbrev decoded : Packet
decoded = record {
  ip_version = 4;
  protocol = 17;
  dest_ip = 1 ∷ 2 ∷ 3 ∷ 4 ∷ [];
  dest_port = 53;
  payload = 7 ∷ 8 ∷ [];
}

decode-message : decode message ≡ ok decoded
unfolding decode
decode-message = refl

message_bytes : All (λ b. b < 256) message
message_bytes = ground arith

encode-decode_example : (encode decoded ≡ message) × IsSized decoded × (2 ≤ 2)
encode-decode_example = encode-decode message decoded message_bytes decode-message

abbrev below : Bytes → IoResult
below p = record { n = length p; failed = false }

decode-write_example :
    (w : ArgoConn) × (parse_header dns new_conn ≡ some w)
    × (msg : Bytes) × ((write below w (7 ∷ [])).0.sent ≡ msg ∷ [])
    × (decode msg ≡ err missing_port_fields)
decode-write_example = decode-write below dns (7 ∷ []) dns-IsFlow

abbrev smooth : Round
smooth = record { cancelled = false; taken = λ n. n; failed = false }

smooth-IsSmooth : IsSmooth smooth
smooth-IsSmooth = record { live = refl; whole = λ n. refl; fine = refl }

abbrev accepted_conn : Conn
accepted_conn = record { done = false; inbox = []; sent = [] }

abbrev ip_print : Bytes → String
ip_print _ = "1.2.3.4"

abbrev decimal : ℕ → String
decimal _ = "53"

-- Every dial times out once, and then gives the connection 5.
abbrev second_try : String → String → ℕ → Result DialError ℕ
second_try network address zero = err (net_error true)
second_try network address (suc n) = ok 5

dials :
    dial ip_print decimal second_try
      (protocol (packet_of dns (7 ∷ 8 ∷ [])))
      (address ip_print decimal (packet_of dns (7 ∷ 8 ∷ [])))
    ≡ some 5
unfolding dial dial_with_retry retry_from is_retryable_error
dials = refl

encoded_fits : length (encode (packet_of dns (7 ∷ 8 ∷ []))) ≤ buffer_size
unfolding as_slice
encoded_fits = omega arith

session_example :
    (w : ArgoConn) × (parse_header dns new_conn ≡ some w)
    × (handle_accepted ip_print decimal second_try buffer_size
          (ok ("", ""))
          smooth
          (smooth ∷ [])
          (record accepted_conn { inbox = (write_all below w ((7 ∷ 8 ∷ []) ∷ (9 ∷ []) ∷ [])).sent })
        ≡ served (record {
          dialed = some (
            protocol (packet_of dns (7 ∷ 8 ∷ [])),
            address ip_print decimal (packet_of dns (7 ∷ 8 ∷ [])),
          );
          writes = (7 ∷ 8 ∷ []) ∷ map (take buffer_size) ((9 ∷ []) ∷ []);
          relayed = true;
        }))
session_example =
    session ip_print decimal second_try below dns (7 ∷ 8 ∷ []) ((9 ∷ []) ∷ []) buffer_size smooth
      (smooth ∷ []) accepted_conn 5 dns-IsFlow (omega arith) encoded_fits smooth-IsSmooth
      (smooth-IsSmooth, tt) (omega arith) dials

abbrev sending : Sending
sending = record { closed = false; chunk = some (7 ∷ 8 ∷ 9 ∷ []); accepts = true }

upload_intact_example :
    (flatten {A = ℕ} (
        forward buffer_size (smooth ∷ []) (record accepted_conn {
          inbox =
              (upstream
                (sending ∷ [])
                (record { read_buf = []; inbox = []; outbox = [] })).0.outbox;
        }))
      ≡ flatten {A = ℕ} ((7 ∷ 8 ∷ 9 ∷ []) ∷ []))
    ↔ All {A = Bytes} (λ chunk. length {A = ℕ} chunk ≤ buffer_size) ((7 ∷ 8 ∷ 9 ∷ []) ∷ [])
upload_intact_example =
    upload_intact (sending ∷ []) ((7 ∷ 8 ∷ 9 ∷ []) ∷ [])
      (record { read_buf = []; inbox = []; outbox = [] }) (smooth ∷ []) accepted_conn refl
      ((refl, refl, refl), tt) (smooth-IsSmooth, tt) (omega arith)

-- An edge that finds the two headers that the server looks for.
abbrev prefixed : Header → List Request.Metadata
prefixed [] = []
prefixed ((k, v) ∷ h) = record { key = "HttpHeader:" <> k; val = v } ∷ prefixed h

same_truth : (a b : Bool) → (a ≡ true → b ≡ true) → (b ≡ true → a ≡ true) → a ≡ b
same_truth true b f g = sym (f refl)
same_truth false true f g = g refl
same_truth false false f g = refl

prefixed_key : (j k : String) → str_eq ("HttpHeader:" <> j) ("HttpHeader:" <> k) ≡ str_eq j k
prefixed_key j k =
    same_truth (str_eq ("HttpHeader:" <> j) ("HttpHeader:" <> k)) (str_eq j k)
      (λ h. (eq_iff j k).1 (
        append_cancel_left "HttpHeader:" j k
          ((eq_iff ("HttpHeader:" <> j) ("HttpHeader:" <> k)).0 h)))
      (λ h.
        (eq_iff ("HttpHeader:" <> j) ("HttpHeader:" <> k)).1
          (ap (λ s. "HttpHeader:" <> s) ((eq_iff j k).0 h)))

prefixed-forwards :
    (k : String) (h : Header) → first_value ("HttpHeader:" <> k) (prefixed h) ≡ get_header k h
unfolding first_value get_header
prefixed-forwards k [] = refl
prefixed-forwards k ((j, v) ∷ h) = rw (prefixed_key j k, prefixed-forwards k h)

-- An edge that adds the key of the handshake.
abbrev keyed : Header → List Request.Metadata
keyed h = record { key = "HttpHeader:Sec-Websocket-Key"; val = "dGhlIHNhbXBsZQ==" } ∷ prefixed h

keyed_proto :
    (h : Header) → first_value "HttpHeader:Forward-Proto" (keyed h) ≡ get_header "Forward-Proto" h
unfolding first_value
keyed_proto = prefixed-forwards "Forward-Proto"

keyed_dest :
    (h : Header) → first_value "HttpHeader:Forward-Dest" (keyed h) ≡ get_header "Forward-Dest" h
unfolding first_value
keyed_dest = prefixed-forwards "Forward-Dest"

abbrev prefixing : Edge
prefixing = record { forward = keyed; forwards_proto = keyed_proto; forwards_dest = keyed_dest }

abbrev params : Params
params = record {
  scheme = "wss";
  cdn_ip = "104.16.0.1";
  url = "a.example/x";
  port = 443;
  pool_size = 2;
}

abbrev dotted : AddrPort → String
dotted a = "1.2.3.4:53"

request_destination_example :
    (Request.network (request_for prefixing dotted decimal decimal params (some dns))
      ≡ network_string decimal 17)
    × (Request.address (request_for prefixing dotted decimal decimal params (some dns))
        ≡ destination_address dotted dns)
    × (Request.network (request_for prefixing dotted decimal decimal params none) ≡ "")
    × (Request.address (request_for prefixing dotted decimal decimal params none) ≡ "")
request_destination_example = request_destination prefixing dotted decimal decimal params dns

-- The flow of `dns`, as the network stack names it.
abbrev dns_id : EndpointId
dns_id = record {
  remote_address = 10 ∷ 0 ∷ 0 ∷ 1 ∷ [];
  remote_port = 4000;
  local_address = 1 ∷ 2 ∷ 3 ∷ 4 ∷ [];
  local_port = 53;
}

dns-IsOctets : IsOctets dns_id.local_address
dns-IsOctets = (inl refl, ground arith)

parse_header-metadata_for_example :
    parse_header (metadata_for 17 dns_id) new_conn
    ≡ some (record new_conn { header = encode (record decoded { payload = [] }); hdr_len = 8 })
parse_header-metadata_for_example =
    parse_header-metadata_for 17 dns_id new_conn (omega arith) dns-IsOctets (omega arith)

-- A message is cut to the reader, a write fails, and a write behind `Close` is refused.
abbrev wrapped : Conn.Conn
wrapped = record { incoming = (1 ∷ 2 ∷ 3 ∷ []) ∷ []; written = []; done = false }

abbrev some_calls : List Call
some_calls =
    read_call 2
    ∷ write_call false (9 ∷ [])
    ∷ write_call true (8 ∷ [])
    ∷ pinger_call (ticked false [] ∷ cancelled ∷ [])
    ∷ close_call
    ∷ write_call false (7 ∷ [])
    ∷ []

calls-conn_example :
    server_calls some_calls (conn wrapped)
    ≡ (conn (client_calls some_calls wrapped).0, (client_calls some_calls wrapped).1)
calls-conn_example = calls-conn some_calls wrapped

-- A pool that has one connection, for which no destination was known.
abbrev plain : Pool.Link
plain = record { opened_for = none }

abbrev pooled : Pool.Pool
pooled = record (Pool.new_pool 1) { pre = Pool.pushed; conns = plain ∷ [] }

pooling : Pool.Reach (Pool.new_pool 1) pooled
unfolding ◌+ℤ◌
pooling =
    Pool.next
      (Pool.next (Pool.next Pool.here (Pool.pre_enter refl (omega arith)))
        (Pool.pre_connect refl refl))
      (Pool.pre_push plain refl (omega arith))

dial-Reaches_example :
    Reaches prefixing dotted decimal decimal params below dns
      (7 ∷ 8 ∷ [])
      ((9 ∷ []) ∷ [])
      plain
      false
unfolding IsFor
dial-Reaches_example =
    dial-Reaches prefixing dotted decimal decimal params below dns (7 ∷ 8 ∷ []) ((9 ∷ []) ∷ [])
      dns-IsFlow (omega arith) pooling (Pool.dial_take plain [] refl) tt
