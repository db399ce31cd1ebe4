-- ===== src/Client/Metadata.antt =====
-- client/tun/metadata: what a proxied flow is, and its addresses. `netip.Addr` is the standard
-- library's: the zero value, an IPv4 or an IPv6 address, with the octets that `AsSlice` gives.
use cftun.Common.{
  ℕ, ◌<◌, ◌≡◌, Bool, true, false, not, ◌||◌, String, Option, none, some, [], ◌==◌, Bytes, length,
  All, if◌then◌else◌,
}

pub data IpAddr : Type 0 where
  invalid : IpAddr
  four six : Bytes → IpAddr

unfoldable pub is4 : IpAddr → Bool
is4 (four octets) = true
is4 _ = false

unfoldable pub is6 : IpAddr → Bool
is6 (six octets) = true
is6 _ = false

unfoldable pub is_valid : IpAddr → Bool
is_valid invalid = false
is_valid _ = true

unfoldable pub as_slice : IpAddr → Bytes
as_slice invalid = []
as_slice (four octets) = octets
as_slice (six octets) = octets

-- An address holds 4 or 16 octets.
abbrev pub IsAddr : IpAddr → Type 0
IsAddr invalid = Unit
IsAddr (four octets) = (length octets ≡ 4) × All (λ b. b < 256) octets
IsAddr (six octets) = (length octets ≡ 16) × All (λ b. b < 256) octets

abbrev pub icmp : ℕ
icmp = 1

abbrev pub tcp : ℕ
tcp = 6

abbrev pub udp : ℕ
udp = 17

-- The `default` branch formats the number, by a `Sprintf` that is a parameter.
unfoldable pub network_string : (ℕ → String) → ℕ → String
network_string unknown n =
    if n == icmp then "icmp" else if n == tcp then "tcp" else if n == udp then "udp" else unknown n

pub record Metadata : Type 0 where
  pub network : ℕ
  pub ip_version : ℕ
  pub src_ip : IpAddr
  pub dst_ip : IpAddr
  pub src_port : ℕ
  pub dst_port : ℕ

-- netip.AddrPort
pub record AddrPort : Type 0 where
  pub ip : IpAddr
  pub port : ℕ

unfoldable pub destination_addr_port : Metadata → AddrPort
destination_addr_port m = record { ip = m.dst_ip; port = m.dst_port }

unfoldable pub source_addr_port : Metadata → AddrPort
source_addr_port m = record { ip = m.src_ip; port = m.src_port }

unfoldable pub destination_address : (AddrPort → String) → Metadata → String
destination_address to_string m = to_string (destination_addr_port m)

unfoldable pub source_address : (AddrPort → String) → Metadata → String
source_address to_string m = to_string (source_addr_port m)

-- `nil` is none.
unfoldable pub tcp_addr : Metadata → Option AddrPort
unfolding is_valid destination_addr_port
tcp_addr m =
    if not (m.network == tcp) || not (is_valid m.dst_ip)
    then none
    else some (destination_addr_port m)

unfoldable pub udp_addr : Metadata → Option AddrPort
unfolding is_valid destination_addr_port
udp_addr m =
    if not (m.network == udp) || not (is_valid m.dst_ip)
    then none
    else some (destination_addr_port m)

unfoldable pub source_udp_addr : Metadata → Option AddrPort
unfolding is_valid source_addr_port
source_udp_addr m =
    if not (m.network == udp) || not (is_valid m.src_ip) then none else some (source_addr_port m)

-- `Addr`, a net.Addr of a flow.
unfoldable pub addr_network : (ℕ → String) → Metadata → String
unfolding network_string
addr_network unknown m = network_string unknown m.network

unfoldable pub addr_string : (AddrPort → String) → Metadata → String
unfolding destination_address
addr_string to_string m = destination_address to_string m

-- A net.Addr for `parseNetAddr`: nil, one with an address and a port, or one that only prints.
pub data NetAddr : Type 0 where
  no_addr : NetAddr
  addr_port : AddrPort → NetAddr
  printed : String → NetAddr

-- `parse` is netip.ParseAddrPort, none its error.
unfoldable pub parse_addr_string : (String → Option AddrPort) → String → IpAddr × ℕ
parse_addr_string parse s = elim (parse s) [ none ↦ (invalid, 0) | some ap ↦ (ap.ip, ap.port) ]

unfoldable pub parse_net_addr : (String → Option AddrPort) → NetAddr → IpAddr × ℕ
unfolding parse_addr_string
parse_net_addr parse no_addr = (invalid, 0)
parse_net_addr parse (addr_port ap) = (ap.ip, ap.port)
parse_net_addr parse (printed s) = parse_addr_string parse s

-- `parseTCPIPAddress`: `netip.AddrFromSlice` of the octets of a gVisor address, the zero value
-- where they are neither 4 nor 16.
unfoldable pub parse_tcpip_address : Bytes → IpAddr
parse_tcpip_address octets =
    if length octets == 4 then four octets else if length octets == 16 then six octets else invalid

-- The flow as gVisor names it, with the octets of its addresses: the remote end is the source, the
-- local end the destination.
pub record EndpointId : Type 0 where
  pub remote_address : Bytes
  pub remote_port : ℕ
  pub local_address : Bytes
  pub local_port : ℕ

-- How `handleTCPConn` and `handleUDPConn` describe the flow to the dialer.
unfoldable pub metadata_for : ℕ → EndpointId → Metadata
unfolding is4 parse_tcpip_address
metadata_for network id =
    let dst = parse_tcpip_address id.local_address in
    record {
      network = network;
      ip_version = if is4 dst then 4 else 6;
      src_ip = parse_tcpip_address id.remote_address;
      dst_ip = dst;
      src_port = id.remote_port;
      dst_port = id.local_port;
    }

-- What the dialer relies on: a flow to an address, with a version that fits it and a 16-bit port.
pub record IsFlow (m : Metadata) : Type 0 where
  pub addr : IsAddr m.dst_ip
  pub valid : is_valid m.dst_ip ≡ true
  pub version : m.ip_version ≡ (if is4 m.dst_ip then 4 else 6)
  pub port : m.dst_port < 65536
  pub network : m.network < 256
