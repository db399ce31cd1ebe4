-- ===== src/Client/Stack/Options.antt =====
-- client/tun/core/option/option.go. The sizes of gVisor's TCP buffers and its constant for RACK are
-- parameters.
use cftun.Common.{ℕ, Bool, true, false, String, [], ◌∷◌}
use cftun.Client.Stack.{
  ipv4, ipv6, send_buffer_range, receive_buffer_range, congestion_control, delay,
  moderate_receive_buffer, sack, recovery, set_default_ttl, set_forwarding, set_icmp_burst,
  set_icmp_limit, set_tcp_option, Action, sure, attempt, and_then, each,
}

-- gVisor's tcp.MinBufferSize, tcp.DefaultSendBufferSize, tcp.DefaultReceiveBufferSize,
-- tcp.MaxBufferSize and tcpip.TCPRACKLossDetection.
pub record TcpDefaults : Type 0 where
  pub min_buffer_size : ℕ
  pub default_send_buffer_size : ℕ
  pub default_receive_buffer_size : ℕ
  pub max_buffer_size : ℕ
  pub rack_loss_detection : ℕ

abbrev pub default_time_to_live : ℕ
default_time_to_live = 64

abbrev pub icmp_burst : ℕ
icmp_burst = 50

abbrev pub icmp_limit : ℕ
icmp_limit = 1000

unfoldable pub with_default_ttl : ℕ → Action
with_default_ttl ttl =
    and_then (attempt (set_default_ttl ipv4 ttl) "set ipv4 default TTL")
      (attempt (set_default_ttl ipv6 ttl) "set ipv6 default TTL")

unfoldable pub with_forwarding : Bool → Action
with_forwarding v =
    and_then (attempt (set_forwarding ipv4 v) "set ipv4 forwarding")
      (attempt (set_forwarding ipv6 v) "set ipv6 forwarding")

unfoldable pub with_icmp_burst : ℕ → Action
with_icmp_burst burst = sure (set_icmp_burst burst)

unfoldable pub with_icmp_limit : ℕ → Action
with_icmp_limit limit = sure (set_icmp_limit limit)

unfoldable pub with_tcp_send_buffer_size_range : ℕ → ℕ → ℕ → Action
with_tcp_send_buffer_size_range a b c =
    attempt (set_tcp_option (send_buffer_range a b c)) "set TCP send buffer size range"

unfoldable pub with_tcp_receive_buffer_size_range : ℕ → ℕ → ℕ → Action
with_tcp_receive_buffer_size_range a b c =
    attempt (set_tcp_option (receive_buffer_range a b c)) "set TCP receive buffer size range"

unfoldable pub with_tcp_send_buffer_size : TcpDefaults → ℕ → Action
with_tcp_send_buffer_size d size =
    attempt (set_tcp_option (send_buffer_range d.min_buffer_size size d.max_buffer_size))
      "set TCP send buffer size range"

unfoldable pub with_tcp_receive_buffer_size : TcpDefaults → ℕ → Action
with_tcp_receive_buffer_size d size =
    attempt (set_tcp_option (receive_buffer_range d.min_buffer_size size d.max_buffer_size))
      "set TCP receive buffer size range"

unfoldable pub with_tcp_congestion_control : String → Action
with_tcp_congestion_control cc =
    attempt (set_tcp_option (congestion_control cc)) "set TCP congestion control algorithm"

unfoldable pub with_tcp_delay : Bool → Action
with_tcp_delay v = attempt (set_tcp_option (delay v)) "set TCP delay"

unfoldable pub with_tcp_moderate_receive_buffer : Bool → Action
with_tcp_moderate_receive_buffer v =
    attempt (set_tcp_option (moderate_receive_buffer v)) "set TCP moderate receive buffer"

unfoldable pub with_tcp_sack_enabled : Bool → Action
with_tcp_sack_enabled v = attempt (set_tcp_option (sack v)) "set TCP SACK"

unfoldable pub with_tcp_recovery : ℕ → Action
with_tcp_recovery v = attempt (set_tcp_option (recovery v)) "set TCP Recovery"

unfoldable pub with_default : TcpDefaults → Action
with_default d = each (
    with_default_ttl default_time_to_live
    ∷ with_forwarding true
    ∷ with_icmp_burst icmp_burst
    ∷ with_icmp_limit icmp_limit
    ∷ with_tcp_send_buffer_size_range d.min_buffer_size d.default_send_buffer_size d.max_buffer_size
    ∷ with_tcp_receive_buffer_size_range d.min_buffer_size d.default_receive_buffer_size
        d.max_buffer_size
    ∷ with_tcp_congestion_control "reno"
    ∷ with_tcp_delay false
    ∷ with_tcp_moderate_receive_buffer false
    ∷ with_tcp_sack_enabled true
    ∷ with_tcp_recovery d.rack_loss_detection
    ∷ [])
