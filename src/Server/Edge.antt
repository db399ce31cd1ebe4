-- ===== src/Server/Edge.antt =====
-- The connections to Cloudflare's edge: server/cfd/tunnel.go, `getEdgeIP`, and server/cfd/quic.go,
-- `createUDPConnForConnIndex`. The resolver, the parser of addresses and the sockets are
-- parameters.
pub mod Ports
pub mod Quic
use cftun.Common.{
  ℕ, Bool, true, false, Option, none, some, String, List, [], ◌∷◌, ◌++◌, length, get_or, ltb, ◌==◌,
  if◌then◌else◌,
}
use cftun.Common.Text.{◌<>◌, contains}

-- The fields of `EdgeTunnelServer` that choose an address; `edge_ips` is what the channel holds.
pub record EdgeTunnelServer (A : Type 0) : Type 0 where
  pub edge_ips : List A
  pub ns_result : List String

abbrev or_empty : Option (List String) → List String
or_empty none = []
or_empty (some ips) = ips

-- The result of the two lookups. The first replaces an empty list, the second is appended.
abbrev pub resolve : (String → Option (List String)) → List String → List String
resolve lookup_host [] =
    or_empty (lookup_host "region1.v2.argotunnel.com")
    ++ or_empty (lookup_host "region2.v2.argotunnel.com")
resolve lookup_host (ip ∷ ips) = ip ∷ ips

unfoldable pub edge_address : (ℕ → String) → List String → ℕ → String
unfolding contains
edge_address itoa ips index =
    let ip = get_or ips index "" in
    if ltb index (length ips)
    then (if contains b':' ip then "[" <> ip <> "]:7844" else ip <> ":7844")
    else "198.41.192." <> itoa index <> ":7844"

module _ {A : Type 0} (itoa : ℕ → String) (parse : String → A)
    (lookup_host : String → Option (List String)) where
  abbrev pub from_queue : EdgeTunnelServer A → ℕ → List A → EdgeTunnelServer A × A
  from_queue e index (addr ∷ rest) = (record e { edge_ips = rest }, addr)
  from_queue e index [] =
      let ips = resolve lookup_host e.ns_result in
      (record e { ns_result = ips }, parse (edge_address itoa ips index))

  unfoldable pub get_edge_ip : EdgeTunnelServer A → ℕ → EdgeTunnelServer A × A
  unfolding edge_address
  get_edge_ip e index = from_queue e index e.edge_ips

-- portForConnIndex
abbrev pub PortMap : Type 0
PortMap = ℕ → Option ℕ

abbrev pub set_port : ℕ → Option ℕ → PortMap → PortMap
set_port index port m = λ k. if k == index then port else m k

pub data ListenNetwork : Type 0 where
  udp udp4 udp6 : ListenNetwork

abbrev pub listen_network : Bool → Bool → ListenNetwork
listen_network darwin is4 = if darwin then (if is4 then udp4 else udp6) else udp

-- `listen` opens a socket on a port, 0 for any; `local_port` is the port of a socket, where it is a
-- UDP address.
module _ {C : Type 0} (listen : ListenNetwork → ℕ → Option C) (local_port : C → Option ℕ) where
  -- The second half: a socket on any port, which is remembered.
  unfoldable pub listen_any : ListenNetwork → ℕ → PortMap → PortMap × Option C
  listen_any network index m = elim (listen network 0) [
    | none ↦ (set_port index none m, none)
    | some c ↦ elim (local_port c) [
      | none ↦ (m, none)
      | some port ↦ (set_port index (some port) m, some c)
    ]
  ]

  -- `darwin` is the test of the system, `is4` that of the edge's address.
  unfoldable pub create_udp_conn : Bool → Bool → ℕ → PortMap → PortMap × Option C
  create_udp_conn darwin is4 index m =
      let network = listen_network darwin is4 in
      elim (m index) [
        | none ↦ listen_any network index m
        | some port ↦ elim (listen network port) [
          | none ↦ listen_any network index m
          | some c ↦ (m, some c)
        ]
      ]
