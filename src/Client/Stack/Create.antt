-- ===== src/Client/Stack/Create.antt =====
-- client/tun/core/stack.go, `CreateStack`.
use cftun.Common.{ℕ, true, List, [], ◌∷◌, ◌++◌}
use cftun.Client.Metadata.{IpAddr}
use cftun.Client.Stack.{tcp, udp, set_handler, Action, sure, each}
use cftun.Client.Stack.Options.{TcpDefaults, with_default}
use cftun.Client.Stack.Nic.{
  with_creating_nic, with_promiscuous_mode, with_spoofing, with_route_table, with_multicast_groups,
}

-- What of the configuration decides the calls: the link endpoint and the handlers are passed
-- through.
pub record Config : Type 0 where
  pub multicast_groups : List IpAddr
  pub options : List Action

-- The last statement of `withTCPHandler`; the forwarder that it installs is apart.
unfoldable pub with_tcp_handler : Action
with_tcp_handler = sure (set_handler tcp)

unfoldable pub with_udp_handler : Action
with_udp_handler = sure (set_handler udp)

-- `nic` is the stack's `NextNICID`.
unfoldable pub create_stack : TcpDefaults → ℕ → Config → Action
create_stack d nic cfg = each (
    (with_default d ∷ cfg.options)
    ++ with_tcp_handler
      ∷ with_udp_handler
      ∷ with_creating_nic nic
      ∷ with_promiscuous_mode nic true
      ∷ with_spoofing nic true
      ∷ with_route_table nic
      ∷ with_multicast_groups nic cfg.multicast_groups
      ∷ [])
