-- ===== src/Client/Stack/Nic.antt =====
-- client/tun/core/nic.go and client/tun/core/route.go.
use cftun.Common.{ℕ, Bool, List, [], ◌∷◌, Bytes, map}
use cftun.Client.Metadata.{IpAddr, invalid, four, six}
use cftun.Client.Stack.{
  ipv4, ipv6, create_nic, set_promiscuous_mode, set_spoofing, set_route_table, add_protocol_address,
  join_group, Action, sure, attempt, nothing, and_then, each,
}

unfoldable pub with_creating_nic : ℕ → Action
with_creating_nic nic = attempt (create_nic nic) "create NIC"

unfoldable pub with_promiscuous_mode : ℕ → Bool → Action
with_promiscuous_mode nic v = attempt (set_promiscuous_mode nic v) "set promiscuous mode"

unfoldable pub with_spoofing : ℕ → Bool → Action
with_spoofing nic v = attempt (set_spoofing nic v) "set spoofing"

-- The empty subnets of both families.
unfoldable pub with_route_table : ℕ → Action
with_route_table nic = sure (set_route_table ((ipv4, nic) ∷ (ipv6, nic) ∷ []))

-- 10.0.0.1, and the 16 bytes of the literal: it lists 15, so that the 1 is the last but one.
abbrev pub multicast_source4 : Bytes
multicast_source4 = 0x0a ∷ 0 ∷ 0 ∷ 0x01 ∷ []

abbrev pub multicast_source6 : Bytes
multicast_source6 = 0xfd ∷ 0 ∷ 0 ∷ 0 ∷ 0 ∷ 0 ∷ 0 ∷ 0 ∷ 0 ∷ 0 ∷ 0 ∷ 0 ∷ 0 ∷ 0 ∷ 0x01 ∷ 0 ∷ []

-- An address of neither family joins nothing, and its error stays nil.
unfoldable pub join : ℕ → IpAddr → Action
join nic invalid = nothing
join nic (four octets) = attempt (join_group ipv4 nic octets) "join multicast group"
join nic (six octets) = attempt (join_group ipv6 nic octets) "join multicast group"

-- The errors of the two addresses are ignored.
unfoldable pub with_multicast_groups : ℕ → List IpAddr → Action
unfolding join
with_multicast_groups nic [] = nothing
with_multicast_groups nic (g ∷ gs) =
    and_then (sure (add_protocol_address nic ipv4 multicast_source4 8)) (
      and_then (sure (add_protocol_address nic ipv6 multicast_source6 8))
        (each (map (join nic) (g ∷ gs))))
