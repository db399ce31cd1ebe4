-- ===== src/Server/Tunnel.antt =====
-- server/cfd/tunnel.go, `Serve` and `serveQUIC`: one connection to the edge. Dialling and the
-- connection's own loop are parameters.
pub mod Registered
use cftun.Common.{
  List, ℕ, ◌%◌, ◌^◌, Bool, true, if◌then◌else◌, Option, none, some, String, Result, ok, err,
}
use cftun.Common.Text.{◌<>◌}
use cftun.Common.Codec.{Json, Base64}
use cftun.Server.Edge.{EdgeTunnelServer, get_edge_ip}
use cftun.Server.Token.{
  TunnelToken, Credentials, credentials, parse_token, ClientInfo, ConnectionOptions, Parameters,
  params,
}

pub record QuicConfig : Type 0 where
  pub initial_packet_size : ℕ
  pub enable_datagrams : Bool
  pub next_proto : String

unfoldable pub quic_config : Bool → QuicConfig
quic_config is4 = record {
  initial_packet_size = if is4 then 1232 else 1252;
  enable_datagrams = true;
  next_proto = "argotunnel";
}

unfoldable pub conn_options : ClientInfo → ConnectionOptions
conn_options info = record { client = info; replace_existing = true }

-- What is outside: the TLS configuration, the dial of an address with a configuration for an index,
-- the new connection, and its `Serve`, each with the text of its error.
pub record Dialing (A : Type 0) : Type 0 where
  pub is4 : A → Bool
  pub tls_config : Result String Unit
  pub dial : QuicConfig → A → ℕ → Option String
  pub connect : ℕ → Option String
  pub serve : ℕ → Parameters → Option String

module _ {A : Type 0} (x : Dialing A) where
  unfoldable pub serve_connected :
      ℕ → Credentials → ConnectionOptions → Option String → Option String
  serve_connected index c o (some message) = some message
  serve_connected index c o none = x.serve index (params index c o)

  unfoldable pub serve_dialed : ℕ → Credentials → ConnectionOptions → Option String → Option String
  unfolding serve_connected
  serve_dialed index c o (some message) = some message
  serve_dialed index c o none = serve_connected index c o (x.connect index)

  unfoldable pub serve_quic :
      Result String Unit → A → ConnectionOptions → Credentials → ℕ → Option String
  unfolding serve_dialed quic_config
  serve_quic (err message) addr o c index =
      some ("unable to create TLS config to connect with edge: " <> message)
  serve_quic (ok u) addr o c index =
      serve_dialed index c o (x.dial (quic_config (x.is4 addr)) addr index)

  unfoldable pub with_token : A → ClientInfo → ℕ → Result String TunnelToken → Option String
  unfolding serve_quic conn_options credentials
  with_token addr info index (err message) = some message
  with_token addr info index (ok token) =
      serve_quic x.tls_config addr (conn_options info) (credentials token) (index % 2 ^ 8)

  -- An address is taken also where the token is refused.
  unfoldable pub serve :
      (ℕ → String)
      → (String → A)
      → (String → Option (List String))
      → Json TunnelToken
      → Base64
      → EdgeTunnelServer A
      → String
      → ClientInfo
      → ℕ
      → EdgeTunnelServer A × Option String
  unfolding with_token
  serve itoa parse lookup_host json base64 e text info index =
      let (e', addr) = get_edge_ip itoa parse lookup_host e index in
      (e', with_token addr info index (parse_token json base64 text))
