-- ===== src/Server/Packet.antt =====
-- server/cfd/packet.go: the header that names the destination of a pooled connection.
use cftun.Common.{
  ℕ, ◌+◌, ◌*◌, ◌-◌, String, Bytes, length, get_or, take, drop, ltb, ◌==◌, if◌then◌else◌, Result, ok,
  err,
}
use cftun.Common.Text.{◌<>◌}

pub record Packet : Type 0 where
  pub ip_version : ℕ
  pub protocol : ℕ
  pub dest_ip : Bytes
  pub dest_port : ℕ
  pub payload : Bytes

pub data DecodeError : Type 0 where
  data_too_short invalid_ipv4_length invalid_ipv6_length missing_port_fields : DecodeError
  unsupported_version : ℕ → DecodeError

abbrev pub icmp : ℕ
icmp = 1

abbrev pub tcp : ℕ
tcp = 6

abbrev pub udp : ℕ
udp = 17

unfoldable pub protocol : Packet → String
protocol p =
    if p.protocol == icmp
    then "icmp"
    else if p.protocol == tcp
    then "tcp"
    else if p.protocol == udp
    then "udp"
    else ""

-- `net.IP.String` and the decimal print of a port are parameters.
unfoldable pub address : (Bytes → String) → (ℕ → String) → Packet → String
address ip_string itoa p =
    if p.ip_version == 4
    then ip_string p.dest_ip <> ":" <> itoa p.dest_port
    else "[" <> ip_string p.dest_ip <> "]:" <> itoa p.dest_port

-- `buf[i:j]`, and `binary.BigEndian.Uint16` of the two bytes at `i`.
abbrev pub slice : Bytes → ℕ → ℕ → Bytes
slice buf i j = take (j - i) (drop i buf)

abbrev pub uint16_at : Bytes → ℕ → ℕ
uint16_at buf i = get_or buf i 0 * 256 + get_or buf (i + 1) 0

-- What follows the test of the version: an address of `size` bytes, the port and the payload.
unfoldable pub decode_rest : ℕ → Bytes → Result DecodeError Packet
decode_rest size buf =
    let offset = 2 + size in
    if ltb (length buf) (offset + 4)
    then err missing_port_fields
    else ok (record {
      ip_version = get_or buf 0 0;
      protocol = get_or buf 1 0;
      dest_ip = slice buf 2 offset;
      dest_port = uint16_at buf offset;
      payload = drop (offset + 2) buf;
    })

unfoldable pub decode : Bytes → Result DecodeError Packet
unfolding decode_rest
decode buf =
    let version = get_or buf 0 0 in
    if ltb (length buf) 2
    then err data_too_short
    else if version == 4
    then (if ltb (length buf) (2 + 4 + 2) then err invalid_ipv4_length else decode_rest 4 buf)
    else if version == 6
    then (if ltb (length buf) (2 + 16 + 2) then err invalid_ipv6_length else decode_rest 16 buf)
    else err (unsupported_version version)
