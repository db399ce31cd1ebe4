-- ===== src/Client/Config/Defaults.antt =====
-- What is started, and that both kinds of connection go to one address.
use cftun.Common.{
  ℕ, ◌≤◌, ◌≡◌, refl, inl, inr, Bool, true, false, Option, none, some, String, List, [], ◌∷◌, ◌++◌,
  All, map, arith, str_eq, eq_iff, if◌then◌else◌, Bool-cases,
}
use cftun.Common.Text.{contains, is_empty, join_host_port}
use cftun.Client.Argo.Websocket as Argo
use cftun.Client.Argo.Websocket.{Params, set_header, get_header}
use cftun.Client.Config.{
  is_plain_port, Config, Tunnel, Start, tun_run, udp_listen, tcp_listen, get_port, get_pool_size,
  get_scheme, get_address, tun_params, start_tunnel, run, net_dial, new_websocket,
}

-- What a configuration with a global URL starts.
abbrev pub IsReady : Start → Type 0
IsReady (tun_run p) =
    (is_empty p.url ≡ false) × (1 ≤ p.port) × (1 ≤ p.pool_size) × (is_empty p.scheme ≡ false)
IsReady (udp_listen t) = (t.protocol ≡ "udp") × (is_empty t.url ≡ false)
IsReady (tcp_listen t) = (t.protocol ≡ "tcp") × (is_empty t.url ≡ false)

module _ (c : Config) (global : is_empty c.global_url ≡ false) where
  scheme_named : is_empty (get_scheme c) ≡ false
  unfolding get_scheme
  scheme_named = elim (Bool-cases (is_empty c.scheme)) [
    | inl unset ↦ elim (Bool-cases (is_plain_port (get_port c))) [
      | inl plain ↦ rw (unset, plain) refl
      | inr secure ↦ rw (unset, secure) refl
    ]
    | inr set ↦ rw set set
  ]

  tun-IsReady : IsReady (tun_run (tun_params c))
  unfolding tun_params get_port get_pool_size get_scheme
  tun-IsReady = (global, ground arith, ground arith, scheme_named)

  tunnel-IsReady : (t : Tunnel) → IsReady (start_tunnel c t)
  unfolding start_tunnel
  tunnel-IsReady t = elim (Bool-cases (is_empty t.url)) [
    | inl unset ↦ elim (Bool-cases (str_eq t.protocol "udp")) [
      | inl udp ↦ rw (unset, udp) ((eq_iff t.protocol "udp").0 udp, global)
      | inr other ↦ elim (Bool-cases (str_eq t.protocol "tcp")) [
        | inl tcp ↦ rw (unset, other, tcp) ((eq_iff t.protocol "tcp").0 tcp, global)
        | inr neither ↦ rw (unset, other, neither) (refl, global)
      ]
    ]
    | inr set ↦ elim (Bool-cases (str_eq t.protocol "udp")) [
      | inl udp ↦ rw (set, udp) ((eq_iff t.protocol "udp").0 udp, set)
      | inr other ↦ elim (Bool-cases (str_eq t.protocol "tcp")) [
        | inl tcp ↦ rw (set, other, tcp) ((eq_iff t.protocol "tcp").0 tcp, set)
        | inr neither ↦ rw (set, other, neither) (refl, set)
      ]
    ]
  ]

  all-IsReady : (ts : List Tunnel) → All IsReady (map (start_tunnel c) ts)
  all-IsReady [] = tt
  all-IsReady (t ∷ ts) = (tunnel-IsReady t, all-IsReady ts)

  -- With a global URL, everything that the configuration starts is ready: the TUN device's dialer
  -- has a URL, a scheme, a port and a pool, and each tunnel is listened on for its own protocol,
  -- which is TCP where it is neither, with a URL.
  pub run-IsReady : All IsReady (run c)
  unfolding run
  run-IsReady = go c.enable
    where
      go :
          (o : Option Bool)
          → All IsReady (
              (elim o [ none ↦ [] | some on ↦ (if on then tun_run (tun_params c) ∷ [] else []) ])
              ++ map (start_tunnel c) c.tunnels)
      go none = all-IsReady c.tunnels
      go (some true) = (tun-IsReady, all-IsReady c.tunnels)
      go (some false) = all-IsReady c.tunnels

-- Where an edge address is configured, without brackets or a zone, the TUN device's connections and
-- the tunnels' connections are dialed to the same address, whatever the URL names.
pub net_dial-new_websocket :
    (itoa : ℕ → String) (c : Config) (addr : String)
    → is_empty c.cdn_ip ≡ false
    → contains b'[' c.cdn_ip ≡ false
    → contains b'%' c.cdn_ip ≡ false
    → net_dial itoa c addr ≡ Argo.net_dial (Argo.new_websocket itoa (tun_params c)) addr
unfolding net_dial get_address Argo.net_dial Argo.new_websocket tun_params join_host_port
net_dial-new_websocket itoa c addr set plain zone = elim (Bool-cases (contains b':' c.cdn_ip)) [
  | inl six ↦ rw (set, plain, zone, six) refl
  | inr four ↦ rw (set, plain, zone, four) refl
]

-- The headers of a tunnel's handshake.
pub get_header-new_websocket :
    (split_host : String → String) (c : Config) (tunnel : Tunnel)
    → let h = (new_websocket split_host c tunnel).headers in
      (get_header "Forward-Proto" h ≡ tunnel.protocol)
      × (get_header "Forward-Dest" h ≡ tunnel.remote)
unfolding new_websocket set_header get_header
get_header-new_websocket split_host c tunnel = (refl, refl)
