-- ===== src/Server/Quick/Applied.antt =====
-- What the application for a quick tunnel gives.
use cftun.Common.{
  ◌≡◌, refl, ap, sym, Bool-cases, Option, none, some, String, Bytes, Result, ok, err, inl, inr,
}
use cftun.Common.Codec.{Json, IsJson, Base64, IsBase64}
use cftun.Server.Token.{TunnelToken, parse_token, generate_token}
use cftun.Server.Token.Roundtrip.{parse_token-generate_token}
use cftun.Server.Quick.{
  QuickTunnel, QuickTunnelResponse, Exchange, tunnel_token, answer, parsed, unmarshalled_response,
  received, apply_quick_url,
}

-- What the application returns for a tunnel of a response.
pub data Granted (json : Json TunnelToken) (base64 : Base64) (x : Exchange) (token url : String)
    : Type 0 where
  granted :
      (body : Bytes) (r : QuickTunnelResponse) (id : Bytes)
      → x.body ≡ some body
      → x.unmarshal body ≡ some r
      → x.parse_uuid r.result.id ≡ some id
      → url ≡ r.result.hostname
      → parse_token json base64 token ≡ ok (tunnel_token r.result id)
      → Granted json base64 x token url

module _ (json : Json TunnelToken) (base64 : Base64) (j : IsJson json) (b : IsBase64 base64)
    (x : Exchange) (token url : String) where
  from_answer :
      (t : QuickTunnel) (o : Result String String)
      → answer json base64 x t o ≡ (token, url, none)
      → (o ≡ ok token) × (url ≡ t.hostname)
  unfolding answer
  from_answer t (err e) h = cc
  from_answer t (ok text) h = (
    ap (λ (v : String × String × Option String). ok v.0) h,
    ap (λ (v : String × String × Option String). v.1) (sym h),
  )

  from_parsed :
      (body : Bytes) (r : QuickTunnelResponse)
      → x.body ≡ some body
      → x.unmarshal body ≡ some r
      → (o : Option Bytes) → x.parse_uuid r.result.id ≡ o
      → parsed json base64 x r.result o ≡ (token, url, none)
      → Granted json base64 x token url
  unfolding parsed
  from_parsed body r came u none e h = cc
  from_parsed body r came u (some id) e h =
      let (g, host) =
        from_answer r.result (generate_token json base64 (some (tunnel_token r.result id))) h in
      granted body r id came u e host
        (parse_token-generate_token json base64 j b (tunnel_token r.result id) token g)

  from_response :
      (body : Bytes) (o : Option QuickTunnelResponse)
      → x.body ≡ some body
      → x.unmarshal body ≡ o
      → unmarshalled_response json base64 x o ≡ (token, url, none)
      → Granted json base64 x token url
  unfolding unmarshalled_response
  from_response body none came e h = cc
  from_response body (some r) came e h = from_parsed body r came e (x.parse_uuid r.result.id) refl h

  from_body :
      (o : Option Bytes)
      → x.body ≡ o
      → received json base64 x o ≡ (token, url, none)
      → Granted json base64 x token url
  unfolding received
  from_body none came h = cc
  from_body (some body) came h = from_response body (x.unmarshal body) came refl h

  -- Where encoding/json and encoding/base64 read back what they write: when ApplyQuickURL returns
  -- no error, the token that it returns is parsed to the account, the secret and the UUID of the
  -- response in the body that was read, and the domain is that response's host name.
  pub apply_quick_url-Granted :
      apply_quick_url json base64 x ≡ (token, url, none) → Granted json base64 x token url
  unfolding apply_quick_url
  apply_quick_url-Granted h = elim (Bool-cases x.request) [
    | inr f ↦ cc
    | inl q ↦ elim (Bool-cases x.response) [ inr f ↦ cc | inl r ↦ from_body x.body refl cc ]
  ]
