-- ===== src/Client/Stack/Steps.antt =====
-- The plans of the options of client/tun/core: every call, in the order of the source.
use cftun.Common.{ℕ, true, false, none, some, List, [], ◌∷◌, ◌++◌, map, flatten}
use cftun.Client.Metadata.{IpAddr, invalid, four, six}
use cftun.Client.Stack.{
  ipv4, ipv6, tcp, udp, send_buffer_range, receive_buffer_range, congestion_control, delay,
  moderate_receive_buffer, sack, recovery, set_default_ttl, set_forwarding, set_icmp_burst,
  set_icmp_limit, set_tcp_option, set_handler, create_nic, set_promiscuous_mode, set_spoofing,
  set_route_table, add_protocol_address, join_group, and_then, each,
}
use cftun.Client.Stack.Options.{
  TcpDefaults, with_default_ttl, with_forwarding, with_icmp_burst, with_icmp_limit,
  with_tcp_send_buffer_size_range, with_tcp_receive_buffer_size_range, with_tcp_congestion_control,
  with_tcp_delay, with_tcp_moderate_receive_buffer, with_tcp_sack_enabled, with_tcp_recovery,
  with_default,
}
use cftun.Client.Stack.Nic.{
  with_creating_nic, with_promiscuous_mode, with_spoofing, with_route_table, multicast_source4,
  multicast_source6, join, with_multicast_groups,
}
use cftun.Client.Stack.Create.{Config, with_tcp_handler, with_udp_handler, create_stack}
use cftun.Client.Stack.Plan.{
  last-Follows, Plan, Follows, FollowsEach, done, also, each-Follows, append-Follows,
  and_then-Follows, sure-Follows, attempt-Follows, nothing-Follows,
}

unfoldable pub default_steps : TcpDefaults → Plan
default_steps d =
    (set_default_ttl ipv4 64, some "set ipv4 default TTL")
    ∷ (set_default_ttl ipv6 64, some "set ipv6 default TTL")
    ∷ (set_forwarding ipv4 true, some "set ipv4 forwarding")
    ∷ (set_forwarding ipv6 true, some "set ipv6 forwarding")
    ∷ (set_icmp_burst 50, none)
    ∷ (set_icmp_limit 1000, none)
    ∷ (
      set_tcp_option
          (send_buffer_range d.min_buffer_size d.default_send_buffer_size d.max_buffer_size),
      some "set TCP send buffer size range",
    )
    ∷ (
      set_tcp_option
          (receive_buffer_range d.min_buffer_size d.default_receive_buffer_size d.max_buffer_size),
      some "set TCP receive buffer size range",
    )
    ∷ (set_tcp_option (congestion_control "reno"), some "set TCP congestion control algorithm")
    ∷ (set_tcp_option (delay false), some "set TCP delay")
    ∷ (set_tcp_option (moderate_receive_buffer false), some "set TCP moderate receive buffer")
    ∷ (set_tcp_option (sack true), some "set TCP SACK")
    ∷ (set_tcp_option (recovery d.rack_loss_detection), some "set TCP Recovery")
    ∷ []

default-Follows : (d : TcpDefaults) → Follows (default_steps d) (with_default d)
unfolding default_steps with_default with_default_ttl with_forwarding with_icmp_burst
    with_icmp_limit with_tcp_send_buffer_size_range with_tcp_receive_buffer_size_range
    with_tcp_congestion_control with_tcp_delay with_tcp_moderate_receive_buffer
    with_tcp_sack_enabled with_tcp_recovery flatten
default-Follows d = each-Follows (
    also (and_then-Follows _ _ _ _ (attempt-Follows _ _) (attempt-Follows _ _)) (
      also (and_then-Follows _ _ _ _ (attempt-Follows _ _) (attempt-Follows _ _)) (
        also (sure-Follows _) (
          also (sure-Follows _) (
            also (attempt-Follows _ _) (
              also (attempt-Follows _ _) (
                also (attempt-Follows _ _) (
                  also (attempt-Follows _ _) (
                    also (attempt-Follows _ _)
                      (also (attempt-Follows _ _) (also (attempt-Follows _ _) done)))))))))))

unfoldable pub join_steps : ℕ → List IpAddr → Plan
join_steps nic [] = []
join_steps nic (invalid ∷ gs) = join_steps nic gs
join_steps nic (four octets ∷ gs) =
    (join_group ipv4 nic octets, some "join multicast group") ∷ join_steps nic gs
join_steps nic (six octets ∷ gs) =
    (join_group ipv6 nic octets, some "join multicast group") ∷ join_steps nic gs

join-Follows : (nic : ℕ) (gs : List IpAddr) → Follows (join_steps nic gs) (each (map (join nic) gs))
unfolding join_steps each join
join-Follows nic [] = nothing-Follows
join-Follows nic (invalid ∷ gs) = and_then-Follows _ _ _ _ nothing-Follows (join-Follows nic gs)
join-Follows nic (four octets ∷ gs) =
    and_then-Follows _ _ _ _ (attempt-Follows _ _) (join-Follows nic gs)
join-Follows nic (six octets ∷ gs) =
    and_then-Follows _ _ _ _ (attempt-Follows _ _) (join-Follows nic gs)

unfoldable pub multicast_steps : ℕ → List IpAddr → Plan
multicast_steps nic [] = []
multicast_steps nic (g ∷ gs) =
    (add_protocol_address nic ipv4 multicast_source4 8, none)
    ∷ (add_protocol_address nic ipv6 multicast_source6 8, none)
    ∷ join_steps nic (g ∷ gs)

multicast-Follows :
    (nic : ℕ) (gs : List IpAddr) → Follows (multicast_steps nic gs) (with_multicast_groups nic gs)
unfolding multicast_steps with_multicast_groups
multicast-Follows nic [] = nothing-Follows
multicast-Follows nic (g ∷ gs) =
    and_then-Follows _ _ _ _ (sure-Follows _)
      (and_then-Follows _ _ _ _ (sure-Follows _) (join-Follows nic (g ∷ gs)))

-- What CreateStack appends to the options of the configuration.
unfoldable pub nic_steps : ℕ → List IpAddr → Plan
nic_steps nic groups =
    (set_handler tcp, none)
    ∷ (set_handler udp, none)
    ∷ (create_nic nic, some "create NIC")
    ∷ (set_promiscuous_mode nic true, some "set promiscuous mode")
    ∷ (set_spoofing nic true, some "set spoofing")
    ∷ (set_route_table ((ipv4, nic) ∷ (ipv6, nic) ∷ []), none)
    ∷ multicast_steps nic groups

abbrev pub all_steps : TcpDefaults → List Plan → ℕ → List IpAddr → Plan
all_steps d plans nic groups = default_steps d ++ (flatten plans ++ nic_steps nic groups)

nic-Follows :
    (nic : ℕ) (groups : List IpAddr)
    → Follows (nic_steps nic groups) (
        each (
          with_tcp_handler
          ∷ with_udp_handler
          ∷ with_creating_nic nic
          ∷ with_promiscuous_mode nic true
          ∷ with_spoofing nic true
          ∷ with_route_table nic
          ∷ with_multicast_groups nic groups
          ∷ []))
unfolding each nic_steps with_tcp_handler with_udp_handler with_creating_nic with_promiscuous_mode
    with_spoofing with_route_table
nic-Follows nic groups = and_then-Follows _ _ _ _ (sure-Follows _) (
    and_then-Follows _ _ _ _ (sure-Follows _) (
      and_then-Follows _ _ _ _ (attempt-Follows _ _) (
        and_then-Follows _ _ _ _ (attempt-Follows _ _) (
          and_then-Follows _ _ _ _ (attempt-Follows _ _) (
            and_then-Follows _ _ _ _ (sure-Follows _)
              (last-Follows _ _ (multicast-Follows nic groups)))))))

pub create_stack-Follows :
    (d : TcpDefaults) (nic : ℕ) (cfg : Config) (plans : List Plan)
    → FollowsEach plans cfg.options
    → Follows (all_steps d plans nic cfg.multicast_groups) (create_stack d nic cfg)
unfolding create_stack each and_then
create_stack-Follows d nic cfg plans h =
    and_then-Follows _ _ _ _ (default-Follows d)
      (append-Follows _ _ h (nic-Follows nic cfg.multicast_groups))
