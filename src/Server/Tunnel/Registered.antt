-- ===== src/Server/Tunnel/Registered.antt =====
-- What is registered for a quick tunnel.
use cftun.Common.{
  List, ℕ, ◌%◌, ◌^◌, ◌≡◌, refl, true, Option, none, some, String, Bytes, Result, ok, err,
}
use cftun.Common.Text.{◌<>◌}
use cftun.Common.Codec.{Json, IsJson, Base64, IsBase64}
use cftun.Server.Edge.{EdgeTunnelServer, get_edge_ip}
use cftun.Server.Token.{TunnelToken, auth, credentials, ClientInfo, Parameters, params}
use cftun.Server.Quick.{QuickTunnelResponse, Exchange, tunnel_token, apply_quick_url}
use cftun.Server.Quick.Applied.{Granted, granted, apply_quick_url-Granted}
use cftun.Server.Tunnel.{
  quic_config, conn_options, Dialing, serve_connected, serve_dialed, serve_quic, with_token, serve,
}

-- The parameters of a registration that name a tunnel and a client.
pub record Names (t : TunnelToken) (info : ClientInfo) (index : ℕ) (p : Parameters) : Type 0 where
  pub account : p.auth_text0 ≡ t.account_tag
  pub secret : p.auth_data1 ≡ t.tunnel_secret
  pub tunnel : p.data1 ≡ t.tunnel_id
  pub connection : p.byte0 ≡ index
  pub client : p.client_data0 ≡ info.client_id
  pub version : p.client_text2 ≡ info.version
  pub arch : p.client_text3 ≡ info.arch
  pub replaces : p.options_bit1 ≡ true

params-Names :
    (t : TunnelToken) (info : ClientInfo) (index : ℕ)
    → Names t info index (params index (credentials t) (conn_options info))
unfolding params auth credentials conn_options
params-Names t info index = record {
  account = refl;
  secret = refl;
  tunnel = refl;
  connection = refl;
  client = refl;
  version = refl;
  arch = refl;
  replaces = refl;
}

-- How a call of `Serve` ends: before a connection, with that step's error, or as the connection's
-- own loop does, which registers the tunnel.
pub data Ends {A : Type 0} (x : Dialing A) (t : TunnelToken) (info : ClientInfo) (index : ℕ)
    (addr : A) : Option String → Type 0 where
  no_tls :
      {message : String}
      → x.tls_config ≡ err message
      → Ends x t info index addr
          (some ("unable to create TLS config to connect with edge: " <> message))
  no_dial :
      {message : String}
      → x.dial (quic_config (x.is4 addr)) addr index ≡ some message
      → Ends x t info index addr (some message)
  no_connection :
      {message : String} → x.connect index ≡ some message → Ends x t info index addr (some message)
  registers : {p : Parameters} → Names t info index p → Ends x t info index addr (x.serve index p)

module _ {A : Type 0} (x : Dialing A) (t : TunnelToken) (info : ClientInfo) (index : ℕ)
    (addr : A) where
  connected-Ends :
      (r : Option String)
      → x.connect index ≡ r
      → Ends x t info index addr (serve_connected x index (credentials t) (conn_options info) r)
  unfolding serve_connected
  connected-Ends (some m) e = no_connection e
  connected-Ends none e = registers (params-Names t info index)

  dialed-Ends :
      (r : Option String)
      → x.dial (quic_config (x.is4 addr)) addr index ≡ r
      → Ends x t info index addr (serve_dialed x index (credentials t) (conn_options info) r)
  unfolding serve_dialed
  dialed-Ends (some m) e = no_dial e
  dialed-Ends none e = connected-Ends _ refl

  quic-Ends :
      (r : Result String Unit)
      → x.tls_config ≡ r
      → Ends x t info index addr (serve_quic x r addr (conn_options info) (credentials t) index)
  unfolding serve_quic
  quic-Ends (err m) e = no_tls e
  quic-Ends (ok u) e = dialed-Ends _ refl

-- Where encoding/json and encoding/base64 read back what they write: with the token that
-- ApplyQuickURL has returned without an error, every Serve ends with the error of the TLS
-- configuration, the dial or the new connection, or as the connection's loop does when it registers
-- the account, the secret and the UUID of the response in the body that the service has sent, for
-- this client and for the index reduced to a byte, replacing an existing connection.
pub serve-Ends :
    {A : Type 0} (x : Dialing A) (itoa : ℕ → String) (parse : String → A)
    (lookup_host : String → Option (List String)) (json : Json TunnelToken) (base64 : Base64)
    → IsJson json
    → IsBase64 base64
    → (ex : Exchange) (text url : String) → apply_quick_url json base64 ex ≡ (text, url, none)
    → (e : EdgeTunnelServer A) (info : ClientInfo) (index : ℕ)
    → (body : Bytes) × (r : QuickTunnelResponse) × (id : Bytes) × (ex.body ≡ some body)
      × (ex.unmarshal body ≡ some r)
      × (ex.parse_uuid r.result.id ≡ some id)
      × Ends x
          (tunnel_token r.result id)
          info
          (index % 2 ^ 8)
          ((get_edge_ip itoa parse lookup_host e index).1)
          ((serve x itoa parse lookup_host json base64 e text info index).1)
unfolding serve with_token
serve-Ends x itoa parse lookup_host json base64 j b ex text url h e info index =
    go (apply_quick_url-Granted json base64 j b ex text url h)
  where
    go :
        Granted json base64 ex text url
        → (body : Bytes) × (r : QuickTunnelResponse) × (id : Bytes) × (ex.body ≡ some body)
          × (ex.unmarshal body ≡ some r)
          × (ex.parse_uuid r.result.id ≡ some id)
          × Ends x
              (tunnel_token r.result id)
              info
              (index % 2 ^ 8)
              ((get_edge_ip itoa parse lookup_host e index).1)
              ((serve x itoa parse lookup_host json base64 e text info index).1)
    go (granted body r id came u p host token) = (
      body,
      r,
      id,
      came,
      u,
      p,
      rw token (
          quic-Ends x (tunnel_token r.result id) info (index % 2 ^ 8)
            ((get_edge_ip itoa parse lookup_host e index).1) _ refl),
    )
