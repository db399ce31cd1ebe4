-- ===== src/Server/Token.antt =====
-- server/cfd/token.go, and the fields of the remote call in server/cfd/register.go.
pub mod Roundtrip
use cftun.Common.{ℕ, Bool, true, Option, none, some, String, [], Bytes, Result, ok, err}
use cftun.Common.Codec.{Json, Base64}
use cftun.Common.Text.{◌<>◌}

pub record TunnelToken : Type 0 where
  pub account_tag : String
  pub tunnel_secret : Bytes
  pub tunnel_id : Bytes

pub record Credentials : Type 0 where
  pub account_tag : String
  pub tunnel_secret : Bytes
  pub tunnel_id : Bytes

pub record TunnelAuth : Type 0 where
  pub account_tag : String
  pub tunnel_secret : Bytes

unfoldable pub auth : Credentials → TunnelAuth
auth c = record { account_tag = c.account_tag; tunnel_secret = c.tunnel_secret }

unfoldable pub credentials : TunnelToken → Credentials
credentials t = record {
  account_tag = t.account_tag;
  tunnel_secret = t.tunnel_secret;
  tunnel_id = t.tunnel_id;
}

-- `var token TunnelToken`
abbrev pub zero_token : TunnelToken
zero_token = record { account_tag = ""; tunnel_secret = []; tunnel_id = [] }

unfoldable pub unmarshalled : TunnelToken × Option String → Result String TunnelToken
unmarshalled (token, none) = ok token
unmarshalled (token, some message) = err message

module _ (json : Json TunnelToken) (base64 : Base64) where
  unfoldable pub read_token : Result String Bytes → Result String TunnelToken
  unfolding unmarshalled
  read_token (err e) = err e
  read_token (ok content) = unmarshalled (json.unmarshal content zero_token)

  unfoldable pub parse_token : String → Result String TunnelToken
  unfolding read_token
  parse_token text = read_token (base64.decode text)

  unfoldable pub write_token : Result String Bytes → Result String String
  write_token (err e) = err ("failed to marshal token: " <> e)
  write_token (ok content) = ok (base64.encode content)

  -- `none` is a nil pointer.
  unfoldable pub generate_token : Option TunnelToken → Result String String
  unfolding write_token
  generate_token none = err "token cannot be nil"
  generate_token (some token) = write_token (json.marshal token)

pub record ClientInfo : Type 0 where
  pub client_id : Bytes
  pub version : String
  pub arch : String

pub record ConnectionOptions : Type 0 where
  pub client : ClientInfo
  pub replace_existing : Bool

-- The parameters of `registerConnection`, by the place that `ParamsFunc` gives them.
pub record Parameters : Type 0 where
  pub auth_text0 : String
  pub auth_data1 : Bytes
  pub data1 : Bytes
  pub byte0 : ℕ
  pub client_data0 : Bytes
  pub client_text2 : String
  pub client_text3 : String
  pub options_bit1 : Bool

-- `ParamsFunc`, where capnp has room for the structs.
unfoldable pub params : ℕ → Credentials → ConnectionOptions → Parameters
unfolding auth
params conn_index c o = record {
  auth_text0 = (auth c).account_tag;
  auth_data1 = (auth c).tunnel_secret;
  data1 = c.tunnel_id;
  byte0 = conn_index;
  client_data0 = o.client.client_id;
  client_text2 = o.client.version;
  client_text3 = o.client.arch;
  options_bit1 = o.replace_existing;
}
