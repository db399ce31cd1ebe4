-- ===== src/Server/Quick.antt =====
-- server/quick.go: the file of a quick tunnel, and the request for a new one. The file system, the
-- clock, the HTTP client and the UUID parser are parameters.
pub mod Saved
pub mod Applied
use cftun.Common.{
  ℕ, ◌+◌, ◌*◌, ◌^◌, Bool, not, ltb, if◌then◌else◌, Option, none, some, String, Bytes, Result, ok,
  err,
}
use cftun.Common.Codec.{Json, Base64}
use cftun.Server.Token.{TunnelToken, generate_token}

-- `last_active` is in nanoseconds.
pub record QuickData : Type 0 where
  pub token : String
  pub quick_url : String
  pub last_active : ℕ

-- 10 * time.Minute
abbrev pub lifetime : ℕ
lifetime = 10 * 60 * 10 ^ 9

unfoldable pub check_age : ℕ → QuickData → Option String
check_age now qd =
    if ltb (qd.last_active + lifetime) now then some "the loaded data has expired" else none

unfoldable pub unmarshalled : ℕ → QuickData × Option String → QuickData × Option String
unmarshalled now (qd, none) = (qd, check_age now qd)
unmarshalled now (qd, some message) = (qd, some message)

-- The first argument but one is what `os.ReadFile(".quick.json")` returns. What is read stays in
-- the struct also on an error.
unfoldable pub load :
    Json QuickData → Result String Bytes → ℕ → QuickData → QuickData × Option String
unfolding unmarshalled
load json (err e) now qd = (qd, some e)
load json (ok buf) now qd = unmarshalled now (json.unmarshal buf qd)

-- What is written to the file, or none where an error is logged.
unfoldable pub written : Result String Bytes → Option Bytes
written (err e) = none
written (ok buf) = some buf

unfoldable pub save : Json QuickData → ℕ → QuickData → QuickData × Option Bytes
unfolding written
save json now qd =
    let qd' : QuickData = record qd { last_active = now } in (qd', written (json.marshal qd'))

pub record QuickTunnel : Type 0 where
  pub id : String
  pub hostname : String
  pub account_tag : String
  pub secret : Bytes

-- The fields of a response are its `Result`; the others are not looked at.
pub record QuickTunnelResponse : Type 0 where
  pub result : QuickTunnel

-- What the HTTP client returns: whether there is a request and a response, the body, and what
-- `json.Unmarshal` makes of a body.
pub record Exchange : Type 0 where
  pub request : Bool
  pub response : Bool
  pub body : Option Bytes
  pub unmarshal : Bytes → Option QuickTunnelResponse
  pub parse_uuid : String → Option Bytes

-- The token, the domain and the error.
abbrev pub failed : String → String × String × Option String
failed message = ("", "", some message)

unfoldable pub tunnel_token : QuickTunnel → Bytes → TunnelToken
tunnel_token t id = record { account_tag = t.account_tag; tunnel_secret = t.secret; tunnel_id = id }

module _ (json : Json TunnelToken) (base64 : Base64) (x : Exchange) where
  unfoldable pub answer : QuickTunnel → Result String String → String × String × Option String
  answer t (err e) = failed e
  answer t (ok token) = (token, t.hostname, none)

  unfoldable pub parsed : QuickTunnel → Option Bytes → String × String × Option String
  unfolding answer tunnel_token
  parsed t none = failed "failed to parse quick Tunnel ID"
  parsed t (some id) = answer t (generate_token json base64 (some (tunnel_token t id)))

  unfoldable pub unmarshalled_response :
      Option QuickTunnelResponse → String × String × Option String
  unfolding parsed
  unmarshalled_response none = failed "failed to unmarshal quick Tunnel"
  unmarshalled_response (some data') = parsed data'.result (x.parse_uuid data'.result.id)

  unfoldable pub received : Option Bytes → String × String × Option String
  unfolding unmarshalled_response
  received none = failed "failed to read quick-tunnel response"
  received (some body) = unmarshalled_response (x.unmarshal body)

  -- `ApplyQuickURL`; the parts above follow its calls, one after the other.
  unfoldable pub apply_quick_url : String × String × Option String
  unfolding received
  apply_quick_url =
      if not x.request
      then failed "failed to build quick tunnel request"
      else if not x.response
      then failed "failed to request quick Tunnel"
      else received x.body
