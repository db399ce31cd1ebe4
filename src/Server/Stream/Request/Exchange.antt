-- ===== src/Server/Stream/Request/Exchange.antt =====
-- What `Accept` promises about the answer on the stream.
use cftun.Common.{
  ◌≡◌, refl, sym, true, append-nil, Option, none, some, String, List, [], ◌∷◌, ◌++◌, append_assoc,
  Bytes, arith, ok, inl, inr, Result-cases,
}
use cftun.Server.Stream.Request.{
  Metadata, ConnectRequest, ConnectResponse, Out, Incoming, put, put_all, write_signature,
  write_version, write_data_stream_preamble, read_connect_request_data, write_connect_response_data,
  response_metadata, accept, websocket_key, network, address, data_stream_protocol_signature,
  protocol_v1,
}

-- The answer that the switch of protocols takes.
abbrev pub switching : (String → String) → ConnectRequest → ConnectResponse
switching digest r = record { error = ""; metadata = response_metadata (digest (websocket_key r)) }

-- The writes of a whole answer.
abbrev pub answer : List Bytes → List Bytes
answer msg = data_stream_protocol_signature ∷ protocol_v1 ∷ msg

put_whole :
    (p : Bytes) (out : Out) → (put p out).1 ≡ true → (put p out).0.written ≡ out.written ++ p ∷ []
unfolding put
put_whole p out h = ground arith

put_all_whole :
    (ps : List Bytes) (out : Out)
    → (put_all ps out).1 ≡ true
    → (put_all ps out).0.written ≡ out.written ++ ps
unfolding put_all
put_all_whole [] out h = sym (append-nil out.written)
put_all_whole (p ∷ ps) out h =
    let one = put_whole p out in
    let rest = put_all_whole ps (put p out).0 in
    let assoc = append_assoc out.written (p ∷ []) ps in ground (arith, one, rest, assoc)

preamble_whole :
    (out : Out)
    → (write_data_stream_preamble out).1 ≡ true
    → (write_data_stream_preamble out).0.written
      ≡ out.written ++ data_stream_protocol_signature ∷ protocol_v1 ∷ []
unfolding write_data_stream_preamble write_signature write_version
preamble_whole out h =
    let signed = (put data_stream_protocol_signature out).0 in
    let one = put_whole data_stream_protocol_signature out in
    let two = put_whole protocol_v1 signed in
    let assoc = append_assoc out.written (data_stream_protocol_signature ∷ []) (protocol_v1 ∷ []) in
    ground (arith, one, two, assoc)

response_whole :
    (to_pogs : ConnectResponse → Option (List Bytes)) (metadata : List Metadata) (out : Out)
    → (write_connect_response_data to_pogs metadata out).1 ≡ none
    → (msg : List Bytes) × (to_pogs (record { error = ""; metadata = metadata }) ≡ some msg)
      × ((write_connect_response_data to_pogs metadata out).0.written ≡ out.written ++ answer msg)
unfolding write_connect_response_data
response_whole to_pogs metadata out h =
    go (to_pogs (record { error = ""; metadata = metadata })) refl
  where
    go :
        (o : Option (List Bytes))
        → to_pogs (record { error = ""; metadata = metadata }) ≡ o
        → (msg : List Bytes) × (to_pogs (record { error = ""; metadata = metadata }) ≡ some msg)
          × ((write_connect_response_data to_pogs metadata out).0.written
              ≡ out.written ++ answer msg)
    go none e = absurd (ground (arith, e))
    go (some msg) e =
        let opened = preamble_whole out in
        let sent = put_all_whole msg (write_data_stream_preamble out).0 in
        let assoc =
          append_assoc out.written (data_stream_protocol_signature ∷ protocol_v1 ∷ []) msg in
        (msg, e, ground (arith, e, opened, sent, assoc))

-- Where `Accept` returns a destination, the request was read and names it, and exactly these writes
-- went out, in order: the signature, the version, and those that Cap'n Proto's encoder makes for the
-- answer that switches protocols with the digest of the request's key.
pub accept-answer :
    (digest : String → String) (to_pogs : ConnectResponse → Option (List Bytes)) (i : Incoming)
    (out : Out) (dest : String × String)
    → (accept digest to_pogs i out).1 ≡ ok dest
    → (r : ConnectRequest) × (msg : List Bytes) × (read_connect_request_data i ≡ ok r)
      × (dest ≡ (network r, address r))
      × (to_pogs (switching digest r) ≡ some msg)
      × ((accept digest to_pogs i out).0.written ≡ out.written ++ answer msg)
unfolding accept
accept-answer digest to_pogs i out dest h = elim (Result-cases (read_connect_request_data i)) [
  | inr (e, bad) ↦ absurd (ground (arith, bad))
  | inl (r, good) ↦
      let quiet : (write_connect_response_data to_pogs
            (response_metadata (digest (websocket_key r))) out).1
          ≡ none =
        ground (arith, good) in
      let (msg, built, sent) =
        response_whole to_pogs (response_metadata (digest (websocket_key r))) out quiet in
      (r, msg, good, ground (arith, good, quiet), built, ground (arith, good, sent))
]
