-- ===== src/Server/Stream/Request.antt =====
-- The exchange that opens a stream: `Accept` and what it calls, and server/cfd/protocol.go. What
-- Cap'n Proto reads and writes, SHA-1 and base64 are parameters.
pub mod Exchange
use cftun.Common.{
  ℕ, Bool, true, false, Option, none, some, String, List, [], ◌∷◌, ◌++◌, Bytes, take, str_eq,
  if◌then◌else◌, Result, ok, err,
}

pub record Metadata : Type 0 where
  pub key : String
  pub val : String

-- A connection type is a 16-bit number that the server never reads.
pub record ConnectRequest : Type 0 where
  pub dest : String
  pub conn_type : ℕ
  pub metadata : List Metadata

pub record ConnectResponse : Type 0 where
  pub error : String
  pub metadata : List Metadata

-- The value of the first entry with the key, and the empty string where there is none.
unfoldable pub first_value : String → List Metadata → String
first_value key [] = ""
first_value key (m ∷ rest) = if str_eq m.key key then m.val else first_value key rest

unfoldable pub websocket_key : ConnectRequest → String
websocket_key r = first_value "HttpHeader:Sec-Websocket-Key" r.metadata

unfoldable pub network : ConnectRequest → String
network r = first_value "HttpHeader:Forward-Proto" r.metadata

unfoldable pub address : ConnectRequest → String
address r = first_value "HttpHeader:Forward-Dest" r.metadata

-- protocolSignature
abbrev pub data_stream_protocol_signature : Bytes
data_stream_protocol_signature = 0x0A ∷ 0x36 ∷ 0xCD ∷ 0x12 ∷ 0xA1 ∷ 0x3E ∷ []

abbrev pub protocol_version_length : ℕ
protocol_version_length = 2

-- "01"
abbrev pub protocol_v1 : Bytes
protocol_v1 = b'0' ∷ b'1' ∷ []

pub data StreamError : Type 0 where
  version_unread request_undecoded request_invalid response_unbuilt write_failed response_unsent :
      StreamError

-- The stream's writes, with the fate of the next ones; after the list, writes succeed.
pub record Out : Type 0 where
  pub written : List Bytes
  pub fates : List Bool

unfoldable pub put : Bytes → Out → Out × Bool
put p out = elim out.fates [
  | [] ↦ (record out { written = out.written ++ p ∷ [] }, true)
  | fate ∷ rest ↦
      (record { written = if fate then out.written ++ p ∷ [] else out.written; fates = rest }, fate)
]

-- Writes one after the other, up to the first that fails.
unfoldable pub put_all : List Bytes → Out → Out × Bool
put_all [] out = (out, true)
put_all (p ∷ ps) out =
    let (sent, whole) = put p out in
    let rest = put_all ps sent in if whole then rest else (sent, false)

unfoldable pub write_signature : Bytes → Out → Out × Bool
write_signature signature out = put signature out

unfoldable pub write_version : Out → Out × Bool
write_version out = put (take protocol_version_length protocol_v1) out

unfoldable pub write_data_stream_preamble : Out → Out × Bool
write_data_stream_preamble out =
    let (signed, done) = write_signature data_stream_protocol_signature out in
    let next = write_version signed in if done then next else (signed, false)

-- What the request side of the stream holds: whether the version can be read, and what the decoder
-- and `pogs.Extract` make of the message.
pub record Incoming : Type 0 where
  pub version_readable : Bool
  pub decodes : Bool
  pub extracted : Option ConnectRequest

unfoldable pub read_connect_request_data : Incoming → Result StreamError ConnectRequest
read_connect_request_data i =
    if i.version_readable
    then (if i.decodes
        then elim i.extracted [ none ↦ err request_invalid | some r ↦ ok r ]
        else err request_undecoded)
    else err version_unread

-- `to_pogs` is `ToPogs` and the encoder: the writes that the encoder makes for a response, where it
-- can be built. The encoder stops at the first that fails.
unfoldable pub write_connect_response_data :
    (ConnectResponse → Option (List Bytes)) → List Metadata → Out → Out × Option StreamError
write_connect_response_data to_pogs metadata out =
    elim (to_pogs (record { error = ""; metadata = metadata })) [
      | none ↦ (out, some response_unbuilt)
      | some msg ↦
          let (opened, done) = write_data_stream_preamble out in
          let (sent, whole) = put_all msg opened in
          if done
          then (if whole then (sent, none) else (sent, some response_unsent))
          else (opened, some write_failed)
    ]

-- The metadata of the switching response; `ws_accept` is the digest of the key.
unfoldable pub response_metadata : String → List Metadata
response_metadata ws_accept =
    record { key = "HttpStatus"; val = "101" }
    ∷ record { key = "HttpHeader:Connection"; val = "Upgrade" }
    ∷ record { key = "HttpHeader:Sec-Websocket-Accept"; val = ws_accept }
    ∷ record { key = "HttpHeader:Upgrade"; val = "websocket" }
    ∷ []

-- `Accept`: the network and the address that the request names, where the response went out.
-- `digest` is base64 of SHA-1 over the key and the WebSocket GUID.
unfoldable pub accept :
    (String → String)
    → (ConnectResponse → Option (List Bytes))
    → Incoming
    → Out
    → Out × Result StreamError (String × String)
accept digest to_pogs i out = elim (read_connect_request_data i) [
  | err e ↦ (out, err e)
  | ok request ↦
      let (sent, failure) =
        write_connect_response_data to_pogs (response_metadata (digest (websocket_key request)))
          out in
      (sent, elim failure [ none ↦ ok (network request, address request) | some e ↦ err e ])
]
