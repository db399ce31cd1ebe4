-- ===== src/Server/Token/Roundtrip.antt =====
-- A token that was generated names the tunnel that it was generated for.
use cftun.Common.{◌≡◌, refl, ap, sym, ◌∙◌, some, String, Result, Bytes, ok, err}
use cftun.Common.Codec.{Json, IsJson, Base64, IsBase64}
use cftun.Server.Token.{
  TunnelToken, zero_token, unmarshalled, read_token, write_token, parse_token, generate_token,
}

module _ (json : Json TunnelToken) (base64 : Base64) (j : IsJson json) (b : IsBase64 base64) where
  read_back :
      (t : TunnelToken) (text : String) (r : Result String Bytes)
      → json.marshal t ≡ r
      → write_token json base64 r ≡ ok text
      → parse_token json base64 text ≡ ok t
  unfolding unmarshalled parse_token read_token write_token
  read_back t text (err m) e h = cc
  read_back t text (ok content) e h =
      let same : base64.encode content ≡ text = cc in
      rw (sym same) (
        ap (read_token json base64) (b.decode-encode content)
        ∙ ap unmarshalled (j.unmarshal-marshal t zero_token content e))

  -- Where encoding/json and encoding/base64 read back what they write, a token that GenerateToken
  -- has made is parsed to the same account, secret and tunnel.
  pub parse_token-generate_token :
      (t : TunnelToken) (text : String)
      → generate_token json base64 (some t) ≡ ok text
      → parse_token json base64 text ≡ ok t
  unfolding generate_token
  parse_token-generate_token t text h = read_back t text (json.marshal t) refl h
