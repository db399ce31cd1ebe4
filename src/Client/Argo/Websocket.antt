-- ===== src/Client/Argo/Websocket.antt =====
-- client/tun/transport/argo/dialer.go: the dialer behind a proxy, and its pool of connections that
-- are opened before a destination is known. The WebSocket handshake is a parameter.
pub mod Destination
use cftun.Common.{
  ℕ, Bool, true, false, Option, none, some, String, List, [], ◌∷◌, str_eq, if◌then◌else◌,
}
use cftun.Common.Text.{◌<>◌, before, is_empty, join_host_port}
use cftun.Client.Metadata.{Metadata, AddrPort, destination_address, network_string}

pub record Params : Type 0 where
  pub scheme : String
  pub cdn_ip : String
  pub url : String
  pub port : ℕ
  pub pool_size : ℕ

-- http.Header, over canonical keys: `Set` replaces, `Get` is empty on a missing key.
abbrev pub Header : Type 0
Header = List (String × String)

unfoldable pub set_header : String → String → Header → Header
set_header k v [] = (k, v) ∷ []
set_header k v ((j, w) ∷ h) = if str_eq j k then (k, v) ∷ h else (j, w) ∷ set_header k v h

unfoldable pub get_header : String → Header → String
get_header k [] = ""
get_header k ((j, w) ∷ h) = if str_eq j k then w else get_header k h

-- The fields that `NewWebsocket` computes; the pool has its own module.
pub record Websocket : Type 0 where
  pub params : Params
  pub headers : Header
  pub url : String
  pub address : String

unfoldable pub new_websocket : (ℕ → String) → Params → Websocket
unfolding join_host_port before
new_websocket itoa params =
    let host = before b'/' params.url in
    record {
      params = params;
      headers = set_header "User-Agent" "DEV" (set_header "Host" host []);
      url = params.scheme <> "://" <> host;
      address = join_host_port params.cdn_ip (itoa params.port);
    }

-- The `NetDial` hook: where the TCP connection for a request to `addr` goes.
unfoldable pub net_dial : Websocket → String → String
net_dial w addr = if is_empty w.params.cdn_ip then addr else w.address

-- `w.header(metadata)`, with `netip.AddrPort.String` and the network's format as parameters.
unfoldable pub header : (AddrPort → String) → (ℕ → String) → Option Metadata → Websocket → Header
unfolding destination_address network_string
header to_string unknown none w = w.headers
header to_string unknown (some m) w =
    set_header "Forward-Proto" (network_string unknown m.network) (
      set_header "Forward-Dest" (destination_address to_string m)
        (set_header "User-Agent" "DEV" (set_header "Host" (get_header "Host" w.headers) [])))
