-- ===== src/Wire/Flow.antt =====
-- From a flow of the network stack to its header.
use mathlib.Core.Path.{subst}
use cftun.Common.{
  ap₂, sym, ℕ, ◌+◌, ◌<◌, ◌≡◌, refl, ◌∙◌, ◌⊎◌, inl, inr, true, some, [], Bytes, All, length, arith,
  ◌==◌, if◌then◌else◌,
}
use cftun.Client.Metadata.{
  IpAddr, four, six, is4, is6, is_valid, as_slice, IsAddr, EndpointId, parse_tcpip_address,
  metadata_for, IsFlow,
}
use cftun.Client.Argo.Header.{ArgoConn, parse_header, header_length}
use cftun.Server.Packet.{Packet}
use cftun.Wire.{encode}
use cftun.Wire.Encoding.{parse_header-encode}

-- An address of either family, as octets.
abbrev pub IsOctets : Bytes → Type 0
IsOctets octets = ((length octets ≡ 4) ⊎ (length octets ≡ 16)) × All (λ b. b < 256) octets

parse_four : (octets : Bytes) → length octets ≡ 4 → parse_tcpip_address octets ≡ four octets
unfolding parse_tcpip_address
parse_four octets h = ground (arith, h)

parse_six : (octets : Bytes) → length octets ≡ 16 → parse_tcpip_address octets ≡ six octets
unfolding parse_tcpip_address
parse_six octets h = ground (arith, h)

abbrev ip_version_of : IpAddr → ℕ
ip_version_of a = if is4 a then 4 else 6

abbrev octets_version : Bytes → ℕ
octets_version octets = if length octets == 4 then 4 else 6

abbrev size_of : IpAddr → ℕ
size_of a = if is6 a then 20 else 8

-- What the header needs of an address.
abbrev Parsed : Bytes → IpAddr → Type 0
Parsed octets a =
    IsAddr a
    × (is_valid a ≡ true)
    × (as_slice a ≡ octets)
    × (ip_version_of a ≡ octets_version octets)
    × (size_of a ≡ length octets + 4)

parsed : (octets : Bytes) → IsOctets octets → Parsed octets (parse_tcpip_address octets)
unfolding is_valid as_slice is4 is6
parsed octets (inl h, b) =
    subst (Parsed octets) (sym (parse_four octets h))
      ((h, b), refl, refl, ground (arith, h), omega arith)
parsed octets (inr h, b) =
    subst (Parsed octets) (sym (parse_six octets h))
      ((h, b), refl, refl, ground (arith, h), omega arith)

metadata_for-IsFlow :
    (network : ℕ) (id : EndpointId)
    → network < 256
    → IsOctets id.local_address
    → id.local_port < 65536
    → IsFlow (metadata_for network id)
unfolding metadata_for
metadata_for-IsFlow network id n a p =
    let (addr, valid, octets, version, size) = parsed id.local_address a in
    record { addr = addr; valid = valid; version = refl; port = p; network = n }

-- For any flow that the network stack hands over, to an address of 4 or 16 octets, the header is
-- made without a panic: it encodes the flow's protocol, address and port, with version 4 for 4
-- octets and version 6 for 16.
pub parse_header-metadata_for :
    (network : ℕ) (id : EndpointId) (w : ArgoConn)
    → network < 256
    → IsOctets id.local_address
    → id.local_port < 65536
    → let packet : Packet = record {
      ip_version = if length id.local_address == 4 then 4 else 6;
      protocol = network;
      dest_ip = id.local_address;
      dest_port = id.local_port;
      payload = [];
    } in
      parse_header (metadata_for network id) w
      ≡ some (record w { header = encode packet; hdr_len = length id.local_address + 4 })
unfolding metadata_for header_length
parse_header-metadata_for network id w n a p =
    let m = metadata_for network id in
    let (addr, valid, octets, version, size) = parsed id.local_address a in
    parse_header-encode m w (metadata_for-IsFlow network id n a p)
    ∙ ap₂ (λ (header : Bytes) (hdr_len : ℕ). some (record w { header = header; hdr_len = hdr_len }))
        (ap₂
          (λ (v : ℕ) (o : Bytes). encode (record {
            ip_version = v;
            protocol = network;
            dest_ip = o;
            dest_port = id.local_port;
            payload = [];
          }))
          version octets)
        size
