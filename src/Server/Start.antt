-- ===== src/Server/Start.antt =====
-- server/config.go: how the server is started. The file system, the clock, the services and the
-- parser of addresses are parameters.
pub mod Started
pub mod Restart
mod Codecs
mod Tests
use mathlib.Core.List.{filter_map}
use cftun.Common.{
  ℕ, zero, suc, Bool, true, false, ◌||◌, if◌then◌else◌, str_eq, Option, none, some, String, List,
  [], ◌∷◌, ◌++◌, Bytes, Result, ok, err,
}
use cftun.Common.Int.{ℤ, pos, negsuc}
use cftun.Common.Text.{◌<>◌}
use cftun.Common.Codec.{Json, Base64}
use cftun.Server.Token.{TunnelToken}
use cftun.Server.Quick.{QuickData, load, Exchange, apply_quick_url}
use cftun.Server.Warp.{Warp, Stop, fatal, Outside, Device, run as run_warp}

pub record BuildInfo : Type 0 where
  pub go_os : String
  pub go_version : String
  pub go_arch : String
  pub build_type : String
  pub cloudflared_version : String

-- The three texts of the Go runtime come first.
unfoldable pub get_build_info : String → String → String → String → String → BuildInfo
get_build_info goos goarch runtime_version build_type version = record {
  go_os = goos;
  go_version = runtime_version;
  go_arch = goarch;
  build_type = build_type;
  cloudflared_version = version;
}

unfoldable pub user_agent : BuildInfo → String
user_agent bi = "cloudflared/" <> bi.cloudflared_version

pub record Config : Type 0 where
  pub edge_ips : List String
  pub token : String
  pub ha_conn : ℤ
  pub bind_address : String
  pub warp : Option Warp

unfoldable pub connections : ℤ → ℤ
connections (pos zero) = pos 4
connections n = n

-- What a quick tunnel meets: the file, the clock and the service.
pub record QuickOutside : Type 0 where
  pub json : Json QuickData
  pub file : Result String Bytes
  pub now : ℕ
  pub token_json : Json TunnelToken
  pub base64 : Base64
  pub exchange : Exchange

unfoldable pub applied : QuickData → String × String × Option String → Result Stop QuickData
applied qd (token, url, some message) = err (fatal message)
applied qd (token, url, none) = ok (record qd { token = token; quick_url = url })

unfoldable pub loaded : QuickOutside → QuickData × Option String → Result Stop QuickData
unfolding applied
loaded q (qd, none) = ok qd
loaded q (qd, some message) = applied qd (apply_quick_url q.token_json q.base64 q.exchange)

-- The body of `if server.Token == "quick"`: the data whose token and domain are used.
unfoldable pub quick : QuickOutside → QuickData → Result Stop QuickData
unfolding loaded
quick q qd = loaded q (load q.json q.file q.now qd)

unfoldable pub take_token : Result Stop QuickData → Result Stop (String × QuickData)
take_token (err s) = err s
take_token (ok qd) = ok (qd.token, qd)

unfoldable pub with_token : QuickOutside → Config → QuickData → Result Stop (String × QuickData)
unfolding quick take_token
with_token q c qd = if str_eq c.token "quick" then take_token (quick q qd) else ok (c.token, qd)

-- The indices of the loop, each of which a goroutine serves forever.
unfoldable pub below : ℕ → List ℕ
below zero = []
below (suc n) = below n ++ n ∷ []

unfoldable pub indices : ℤ → List ℕ
unfolding below
indices (pos n) = below n
indices (negsuc n) = []

-- The function that dials for the proxy.
pub data DialFunc (A : Type 0) : Type 0 where
  net_dial : DialFunc A
  warp_dial : Device A → DialFunc A

pub record Proxy (A : Type 0) : Type 0 where
  pub dial_func : DialFunc A
  pub proxy4 : Bool
  pub proxy6 : Bool

-- The tunnel server with the indices that it serves. `edge_ips` is what the channel holds.
pub record EdgeServer (A P : Type 0) : Type 0 where
  pub token : String
  pub ha_conn : ℤ
  pub edge_ips : List P
  pub edge_bind_addr : Option Bytes
  pub proxy : Proxy A
  pub client_id : Bytes
  pub version : String
  pub arch : String
  pub served : List ℕ

module _ {A P : Type 0} (parse_addr : String → Option A) (create_tun : List A → Option String)
    (dialed : String → Option String) (parse_port : String → Option P)
    (parse_ip : String → Option Bytes) where
  unfoldable pub warped : Result Stop (Warp × Option Bytes × Device A) → Result Stop (Proxy A)
  warped (err s) = err s
  warped (ok (w, file, d)) =
      ok (record { dial_func = warp_dial d; proxy4 = w.proxy4; proxy6 = w.proxy6 })

  unfoldable pub proxy : Outside → Result String Bytes → Option Warp → Result Stop (Proxy A)
  unfolding warped
  proxy o file none = ok (record { dial_func = net_dial; proxy4 = false; proxy6 = false })
  proxy o file (some w) =
      if w.proxy4 || w.proxy6
      then warped (run_warp parse_addr create_tun dialed o file w)
      else ok (record { dial_func = net_dial; proxy4 = false; proxy6 = false })

  unfoldable pub serve :
      Config
      → BuildInfo
      → Bytes
      → String × QuickData
      → Result Stop (Proxy A)
      → Result Stop (EdgeServer A P × QuickData)
  unfolding connections indices
  serve c info client_id tq (err s) = err s
  serve c info client_id (token, qd) (ok p) = ok (
    record {
      token = token;
      ha_conn = connections c.ha_conn;
      edge_ips = filter_map parse_port c.edge_ips;
      edge_bind_addr = parse_ip c.bind_address;
      proxy = p;
      client_id = client_id;
      version = info.cloudflared_version;
      arch = info.go_arch;
      served = indices (connections c.ha_conn);
    },
    qd,
  )

  unfoldable pub serve_token :
      Outside
      → Result String Bytes
      → Config
      → BuildInfo
      → Bytes
      → Result Stop (String × QuickData)
      → Result Stop (EdgeServer A P × QuickData)
  unfolding serve proxy
  serve_token o file c info client_id (err s) = err s
  serve_token o file c info client_id (ok tq) = serve c info client_id tq (proxy o file c.warp)

  -- `Run`; `client_id` is the random UUID, and `file` what reading ".warp.json" returns.
  unfoldable pub run :
      QuickOutside
      → Outside
      → Result String Bytes
      → BuildInfo
      → Bytes
      → Config
      → QuickData
      → Result Stop (EdgeServer A P × QuickData)
  unfolding serve_token with_token
  run q o file info client_id c qd = serve_token o file c info client_id (with_token q c qd)
