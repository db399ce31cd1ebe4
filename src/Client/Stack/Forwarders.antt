-- ===== src/Client/Stack/Forwarders.antt =====
-- client/tun/core/tcp.go and client/tun/core/udp.go: what is done with a connection request.
-- gVisor's answers are a parameter.
use cftun.Common.{
  ℕ, ◌*◌, Bool, true, false, not, Option, none, some, List, [], ◌∷◌, ◌++◌, if◌then◌else◌,
}

abbrev pub max_conn_attempts : ℕ
max_conn_attempts = 2 * 1024

abbrev pub tcp_keepalive_count : ℕ
tcp_keepalive_count = 9

-- Seconds.
abbrev pub tcp_keepalive_idle : ℕ
tcp_keepalive_idle = 60

abbrev pub tcp_keepalive_interval : ℕ
tcp_keepalive_interval = 30

-- What is done to a request and its endpoint; `complete true` sends a reset.
pub data Event : Type 0 where
  create_endpoint handle keep_alive : Event
  complete : Bool → Event
  keepalive_idle keepalive_interval keepalive_count : ℕ → Event
  send_buffer_size receive_buffer_size : ℕ → Event

-- What gVisor answers: whether an endpoint is made, which of the three options are accepted, and
-- the default sizes of the stack, where they can be read.
pub record Answers : Type 0 where
  pub created : Bool
  pub idle : Bool
  pub interval : Bool
  pub count : Bool
  pub send_default : Option ℕ
  pub receive_default : Option ℕ

abbrev optional : (ℕ → Event) → Option ℕ → List Event
optional event none = []
optional event (some n) = event n ∷ []

-- `setSocketOptions`: what it does, with false for an error that it returns.
unfoldable pub set_socket_options : Answers → List Event × Bool
set_socket_options a =
    let idle = keep_alive ∷ keepalive_idle tcp_keepalive_idle ∷ [] in
    let interval = idle ++ keepalive_interval tcp_keepalive_interval ∷ [] in
    let count = interval ++ keepalive_count tcp_keepalive_count ∷ [] in
    let sizes =
      optional send_buffer_size a.send_default ++ optional receive_buffer_size a.receive_default in
    if not a.idle
    then (idle, false)
    else if not a.interval
    then (interval, false)
    else if not a.count
    then (count, false)
    else (count ++ sizes, true)

-- The function of the TCP forwarder, with the deferred call at its end.
unfoldable pub forward_tcp : Answers → List Event
forward_tcp a =
    if a.created
    then create_endpoint ∷ ((set_socket_options a).0 ++ handle ∷ complete false ∷ [])
    else create_endpoint ∷ complete true ∷ []

-- The function of the UDP forwarder.
unfoldable pub forward_udp : Bool → List Event
forward_udp created = if created then create_endpoint ∷ handle ∷ [] else create_endpoint ∷ []
