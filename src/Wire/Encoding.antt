-- ===== src/Wire/Encoding.antt =====
-- The client's header against the format, and the round trip to the server.
use native.Mathlib.Nat.{add_comm, add-zero}
use cftun.Common.{
  ℕ, suc, ◌+◌, ◌-◌, ◌/◌, ◌%◌, ◌≡◌, refl, ap, sym, ◌∙◌, ◌⊎◌, inl, inr, [], ◌∷◌, ◌++◌, true, some,
  List, arith, Bytes, length, ltb, ok, err, min, replicate, length-append, copy_at-replicate,
  set-append_at, copy_at-append_at, copy_at-replicate_self, replicate-add, append_assoc, append-nil,
  if◌then◌else◌,
}
use cftun.Client.Metadata.{
  Metadata, IpAddr, invalid, four, six, is4, is6, is_valid, as_slice, IsAddr, IsFlow,
}
use cftun.Client.Argo.Header.{
  ArgoConn, IoResult, put_uint16, header_bytes, header_length, parse_header, add_header, write,
  write_all, new_conn,
}
use cftun.Server.Packet.{Packet, missing_port_fields, decode}
use cftun.Wire.{encode}
use cftun.Wire.Decoding.{IsSized, decode-encode}

-- The packet that a first payload stands for.
abbrev pub packet_of : Metadata → Bytes → Packet
packet_of m p = record {
  ip_version = m.ip_version;
  protocol = m.network;
  dest_ip = as_slice m.dst_ip;
  dest_port = m.dst_port;
  payload = p;
}

put_uint16-append :
    (xs : Bytes) (n a b v : ℕ)
    → length xs ≡ n
    → put_uint16 (xs ++ a ∷ b ∷ []) n v ≡ some (xs ++ (v / 256 % 256) ∷ (v % 256) ∷ [])
unfolding put_uint16
put_uint16-append xs n a b v h = ground (
  arith,
  length-append xs (a ∷ b ∷ []),
  add-zero n,
  set-append_at n 0 xs (a ∷ b ∷ []) (v / 256 % 256) h,
  set-append_at n 1 xs ((v / 256 % 256) ∷ b ∷ []) (v % 256) h,
)

header_bytes-encode :
    (m : Metadata) (n hdr_len : ℕ)
    → length (as_slice m.dst_ip) ≡ n
    → hdr_len ≡ suc (suc (n + 2))
    → header_bytes m hdr_len ≡ some (encode (packet_of m []))
unfolding header_bytes
header_bytes-encode m n hdr_len h e =
    let octets = as_slice m.dst_ip in
    let pos : 2 + min (suc (suc (length octets + 2)) - 2) (length octets)
        ≡ suc (suc (length octets)) =
      omega arith in
    rw
      (
        e,
        ← h,
        pos,
        replicate-add {A = ℕ} (length octets) 2 0,
        copy_at-replicate {A = ℕ} 0 octets (0 ∷ 0 ∷ []),
      )
      (put_uint16-append (m.ip_version ∷ m.network ∷ octets) (suc (suc (length octets))) 0 0
        m.dst_port refl)

add_header-append :
    (w : ArgoConn) (p : Bytes) → w.hdr_len ≡ length w.header → add_header w p ≡ w.header ++ p
unfolding add_header
add_header-append w p h = rw (
  h,
  add_comm (length p) (length w.header),
  replicate-add {A = ℕ} (length w.header) (length p) 0,
  copy_at-replicate {A = ℕ} 0 w.header (replicate (length p) 0),
  copy_at-append_at (length w.header) w.header (replicate (length p) 0) p refl,
  copy_at-replicate_self {A = ℕ} 0 p,
)

-- The octets of a valid address, which the header has room for.
header_room :
    (m : Metadata) → IsFlow m → header_length m ≡ suc (suc (length (as_slice m.dst_ip) + 2))
unfolding header_length as_slice is_valid is6
header_room m flow = go m.dst_ip flow.addr flow.valid
  where
    go :
        (a : IpAddr)
        → IsAddr a
        → is_valid a ≡ true
        → (if is6 a then 20 else 8) ≡ suc (suc (length (as_slice a) + 2))
    go invalid h v = cc
    go (four octets) h v = omega arith
    go (six octets) h v = omega arith

-- For a flow `parse_header` does not panic, and the header that it makes is the format's.
pub parse_header-encode :
    (m : Metadata) (w : ArgoConn)
    → IsFlow m
    → parse_header m w
      ≡ some (record w { header = encode (packet_of m []); hdr_len = header_length m })
unfolding parse_header
parse_header-encode m w flow = rw (
  header_bytes-encode m (length (as_slice m.dst_ip)) (header_length m) refl (header_room m flow),
  parse_header,
)

write_later :
    (below : Bytes → IoResult) (w : ArgoConn) (p : Bytes)
    → w.header_sent ≡ true
    → (write below w p).0 ≡ record w { sent = w.sent ++ p ∷ [] }
unfolding write
write_later below w p h = ground arith

sent-write_all :
    (below : Bytes → IoResult) (w : ArgoConn) (ps : List Bytes)
    → w.header_sent ≡ true
    → (write_all below w ps).sent ≡ w.sent ++ ps
unfolding write_all
sent-write_all below w [] h = sym (append-nil w.sent)
sent-write_all below w (p ∷ ps) h =
    ap (λ (v : ArgoConn). (write_all below v ps).sent) (write_later below w p h)
    ∙ sent-write_all below (record w { sent = w.sent ++ p ∷ [] }) ps h
    ∙ append_assoc w.sent (p ∷ []) ps

encode-append : (m : Metadata) (p : Bytes) → encode (packet_of m []) ++ p ≡ encode (packet_of m p)
encode-append m p = simp append_assoc

-- For a flow, a connection with a header sends it once, in one piece with the first payload, and
-- every later payload alone and in order, whatever the connection below answers.
pub write_all-encode :
    (below : Bytes → IoResult) (m : Metadata) (p : Bytes) (ps : List Bytes)
    → IsFlow m
    → (w : ArgoConn) × (parse_header m new_conn ≡ some w)
      × ((write_all below w (p ∷ ps)).sent ≡ encode (packet_of m p) ∷ ps)
unfolding write_all write
write_all-encode below m p ps flow =
    let w : ArgoConn = record new_conn {
      header = encode (packet_of m []);
      hdr_len = header_length m;
    } in
    let sized : header_length m ≡ length (encode (packet_of m [])) =
      header_room m flow
      ∙ ap (λ n. suc (suc n))
          (sym (
            length-append (as_slice m.dst_ip)
              ((m.dst_port / 256 % 256) ∷ (m.dst_port % 256) ∷ []))) in
    (
      w,
      parse_header-encode m new_conn flow,
      sent-write_all below (write below w p).0 ps refl
          ∙ ap (λ (msg : Bytes). msg ∷ ps) (add_header-append w p sized ∙ encode-append m p),
    )

pub IsSized-packet_of : (m : Metadata) (p : Bytes) → IsFlow m → IsSized (packet_of m p)
unfolding as_slice is_valid is4
IsSized-packet_of m p flow = go m.dst_ip flow.addr flow.valid flow.version
  where
    go :
        (a : IpAddr)
        → IsAddr a
        → is_valid a ≡ true
        → m.ip_version ≡ (if is4 a then 4 else 6)
        → (m.ip_version ≡ 4) × (length (as_slice a) ≡ 4)
          ⊎ (m.ip_version ≡ 6) × (length (as_slice a) ≡ 16)
    go invalid h v e = cc
    go (four octets) h v e = inl (e, h.0)
    go (six octets) h v e = inr (e, h.0)

-- The header round trip, for a flow and whatever the connection below answers. The server decodes
-- the first message of a pooled connection to the flow's version, protocol, destination and payload
-- exactly when that payload has two bytes or more; a shorter one it refuses as a missing port.
pub decode-write :
    (below : Bytes → IoResult) (m : Metadata) (p : Bytes)
    → IsFlow m
    → (w : ArgoConn) × (parse_header m new_conn ≡ some w)
      × (msg : Bytes) × ((write below w p).0.sent ≡ msg ∷ [])
      × (decode msg ≡ (if ltb (length p) 2 then err missing_port_fields else ok (packet_of m p)))
unfolding write_all
decode-write below m p flow =
    let (w, made, sent) = write_all-encode below m p [] flow in
    (
      w,
      made,
      encode (packet_of m p),
      sent,
      decode-encode (packet_of m p) flow.port (IsSized-packet_of m p flow),
    )
