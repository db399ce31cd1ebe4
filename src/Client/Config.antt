-- ===== src/Client/Config.antt =====
-- client/config.go, and client/websocket.go: the configuration, what it starts, and the handshake
-- of a forwarded tunnel.
pub mod Defaults
use cftun.Client.Argo.Gorilla.{GorillaConn}
use cftun.Common.{
  Result, ok, err, Bytes, ℕ, Bool, true, false, not, ◌&&◌, ◌||◌, Option, none, some, String, List,
  [], ◌∷◌, ◌++◌, map, ◌==◌, str_eq, if◌then◌else◌,
}
use cftun.Common.Text.{◌<>◌, before, contains, contains_text, is_empty}
use cftun.Client.Argo.Websocket.{Params, Header, set_header}

pub record Tunnel : Type 0 where
  pub listen : String
  pub remote : String
  pub url : String
  pub protocol : String
  pub timeout : ℕ

-- `enable` is the flag of the `Tun` field where it is set.
pub record Config : Type 0 where
  pub cdn_ip : String
  pub cdn_port : ℕ
  pub pool_size : ℕ
  pub global_url : String
  pub scheme : String
  pub tunnels : List Tunnel
  pub enable : Option Bool

unfoldable pub get_port : Config → ℕ
get_port c = if c.cdn_port == 0 then 443 else c.cdn_port

unfoldable pub get_pool_size : Config → ℕ
get_pool_size c = if c.pool_size == 0 then 10 else c.pool_size

abbrev pub is_plain_port : ℕ → Bool
is_plain_port p =
    p == 80 || p == 8080 || p == 8880 || p == 2052 || p == 2082 || p == 2086 || p == 2095

unfoldable pub get_scheme : Config → String
unfolding get_port
get_scheme c =
    if not (is_empty c.scheme) then c.scheme else if is_plain_port (get_port c) then "ws" else "wss"

unfoldable pub get_address : (ℕ → String) → Config → String
unfolding contains get_port
get_address itoa c =
    if contains b':' c.cdn_ip && not (contains b'[' c.cdn_ip)
    then "[" <> c.cdn_ip <> "]:" <> itoa (get_port c)
    else c.cdn_ip <> ":" <> itoa (get_port c)

-- What `Run` starts.
pub data Start : Type 0 where
  tun_run : Params → Start
  udp_listen tcp_listen : Tunnel → Start

unfoldable pub tun_params : Config → Params
unfolding get_scheme get_port get_pool_size
tun_params c = record {
  scheme = get_scheme c;
  cdn_ip = c.cdn_ip;
  url = c.global_url;
  port = get_port c;
  pool_size = get_pool_size c;
}

-- The body of the loop, with what it writes into the tunnel.
unfoldable pub start_tunnel : Config → Tunnel → Start
start_tunnel c tunnel =
    let named : Tunnel =
      if is_empty tunnel.url then record tunnel { url = c.global_url } else tunnel in
    if str_eq tunnel.protocol "udp"
    then udp_listen named
    else if str_eq tunnel.protocol "tcp"
    then tcp_listen named
    else tcp_listen (record named { protocol = "tcp" })

unfoldable pub run : Config → List Start
run c =
    (elim c.enable [ none ↦ [] | some on ↦ (if on then tun_run (tun_params c) ∷ [] else []) ])
    ++ map (start_tunnel c) c.tunnels

-- `NewWebsocket` of client/websocket.go. `split_host` is the host that `net.SplitHostPort` finds;
-- the local address is none where any interface will do.
pub record Websocket : Type 0 where
  pub url : String
  pub headers : Header
  pub local_ip : Option String

unfoldable pub new_websocket : (String → String) → Config → Tunnel → Websocket
unfolding get_scheme before contains_text
new_websocket split_host c tunnel = record {
  url = get_scheme c <> "://" <> tunnel.url;
  headers = set_header "Forward-Proto" tunnel.protocol (
      set_header "Forward-Dest" tunnel.remote
        (set_header "User-Agent" "DEV" (set_header "Host" (before b'/' tunnel.url) [])));
  local_ip =
      if not (contains_text tunnel.listen "0.0.0.0")
        && not (contains_text tunnel.listen "127.0.0.1")
      then some (split_host tunnel.listen)
      else none;
}

-- The address that the `NetDial` hook dials.
unfoldable pub net_dial : (ℕ → String) → Config → String → String
unfolding get_address
net_dial itoa c addr = if not (is_empty c.cdn_ip) then get_address itoa c else addr

-- `createWebsocketStream`, over what the dial answers: the messages that the connection will
-- receive, or an error.
unfoldable pub create_websocket_stream : Result String (List Bytes) → Result String GorillaConn
create_websocket_stream (err e) = err e
create_websocket_stream (ok inbox) = ok (record { read_buf = []; inbox = inbox; outbox = [] })
