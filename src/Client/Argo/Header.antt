-- ===== src/Client/Argo/Header.antt =====
-- client/tun/proxy/argo.go, `argoConn`: a pooled connection names its destination in a header that
-- goes out before the first payload. The connection below is a parameter: what its `Write` answers.
use cftun.Common.{
  ℕ, ◌+◌, ◌-◌, ◌/◌, ◌%◌, min, Bool, true, false, Option, none, some, List, [], ◌∷◌, ◌++◌, Bytes,
  length, replicate, set, copy_at, ltb, if◌then◌else◌,
}
use cftun.Client.Metadata.{Metadata, is6, as_slice}

-- `(n, err)` of a write; `failed` is a non-nil error.
pub record IoResult : Type 0 where
  pub n : ℕ
  pub failed : Bool

pub record ArgoConn : Type 0 where
  pub header : Bytes
  pub hdr_len : ℕ
  pub header_sent : Bool
  -- what the connection below was given, write by write
  pub sent : List Bytes

-- `binary.BigEndian.PutUint16(header[pos:], v)`, which panics on a slice shorter than two.
unfoldable pub put_uint16 : Bytes → ℕ → ℕ → Option Bytes
put_uint16 header pos v =
    if ltb (length header) (pos + 2)
    then none
    else some (set (set header pos (v / 256 % 256)) (pos + 1) (v % 256))

-- The bytes of the header; `none` is a panic.
unfoldable pub header_bytes : Metadata → ℕ → Option Bytes
header_bytes m hdr_len =
    let header = set (set (replicate hdr_len 0) 0 m.ip_version) 1 m.network in
    let octets = as_slice m.dst_ip in
    put_uint16 (copy_at 2 header octets) (2 + min (hdr_len - 2) (length octets)) m.dst_port

unfoldable pub header_length : Metadata → ℕ
unfolding is6
header_length m = if is6 m.dst_ip then 20 else 8

unfoldable pub parse_header : Metadata → ArgoConn → Option ArgoConn
parse_header m w = elim (header_bytes m (header_length m)) [
  | none ↦ none
  | some header ↦ some (record w { header = header; hdr_len = header_length m })
]

unfoldable pub add_header : ArgoConn → Bytes → Bytes
add_header w p =
    let buf = replicate (length p + w.hdr_len) 0 in copy_at w.hdr_len (copy_at 0 buf w.header) p

-- `below` answers each write to the connection underneath.
unfoldable pub write : (Bytes → IoResult) → ArgoConn → Bytes → ArgoConn × IoResult
write below w p =
    if w.header_sent
    then (record w { sent = w.sent ++ p ∷ [] }, below p)
    else (let payload = add_header w p in
        let answer = below payload in
        (
          record w { header_sent = true; sent = w.sent ++ payload ∷ [] },
          if answer.failed
              then record { n = 0; failed = true }
              else record { n = length p; failed = false },
        ))

-- `&argoConn{Conn: c}`
abbrev pub new_conn : ArgoConn
new_conn = record { header = []; hdr_len = 0; header_sent = false; sent = [] }

-- The writes of a relay, one after the other.
unfoldable pub write_all : (Bytes → IoResult) → ArgoConn → List Bytes → ArgoConn
write_all below w [] = w
write_all below w (p ∷ ps) = write_all below (write below w p).0 ps
