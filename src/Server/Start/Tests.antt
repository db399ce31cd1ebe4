-- ===== src/Server/Start/Tests.antt =====
-- Runs of the start of the server.
use cftun.Common.{
  ℕ, ◌%◌, ◌^◌, ◌<◌, ◌≡◌, refl, All, true, false, none, some, String, [], ◌∷◌, Bytes, ok, err, arith,
}
use cftun.Common.Int.{pos}
use mathlib.Core.List.{filter_map}
use cftun.Server.Edge.{get_edge_ip}
use cftun.Server.Token.{ClientInfo, generate_token}
use cftun.Server.Key.{new_private_key, clamp, clamp_first, clamp_last}
use cftun.Server.Key.Clamp.{IsClamped, new_private_key-IsClamped}
use cftun.Server.Quick.{
  QuickData, save, QuickTunnel, QuickTunnelResponse, Exchange, tunnel_token, apply_quick_url,
}
use cftun.Server.Warp.{Warp, Outside, Device, run}
use cftun.Server.Warp.Restart.{run-again}
use cftun.Server.Start.{
  BuildInfo, Config, QuickOutside, quick, warp_dial, EdgeServer, run as run_server,
}
use cftun.Server.Start.Started.{IsServing, run-IsServing}
use cftun.Server.Start.Restart.{quick-save}
use cftun.Server.Start.Codecs.{
  base64, base64-IsBase64, token_json, token_json-IsJson, quick_json, quick_json-IsJson, warp_json,
  warp_json-IsJson,
}
use cftun.Server.Tunnel.{Dialing, serve}
use cftun.Server.Tunnel.Registered.{Ends, serve-Ends}

-- 32 bytes of which the first and the last have every bit.
abbrev random : Bytes
random =
    255 ∷ 1 ∷ 2 ∷ 3 ∷ 4 ∷ 5 ∷ 6 ∷ 7 ∷ 8 ∷ 9 ∷ 10 ∷ 11 ∷ 12 ∷ 13 ∷ 14 ∷ 15 ∷ 16 ∷ 17 ∷ 18 ∷ 19 ∷ 20
    ∷ 21 ∷ 22 ∷ 23 ∷ 24 ∷ 25 ∷ 26 ∷ 27 ∷ 28 ∷ 29 ∷ 30 ∷ 255 ∷ []

abbrev clamped : Bytes
clamped =
    248 ∷ 1 ∷ 2 ∷ 3 ∷ 4 ∷ 5 ∷ 6 ∷ 7 ∷ 8 ∷ 9 ∷ 10 ∷ 11 ∷ 12 ∷ 13 ∷ 14 ∷ 15 ∷ 16 ∷ 17 ∷ 18 ∷ 19 ∷ 20
    ∷ 21 ∷ 22 ∷ 23 ∷ 24 ∷ 25 ∷ 26 ∷ 27 ∷ 28 ∷ 29 ∷ 30 ∷ 127 ∷ []

random_bytes : All (λ b. b < 256) random
random_bytes = ground arith

new_private_key-IsClamped_example : IsClamped random clamped
unfolding new_private_key clamp clamp_first clamp_last
new_private_key-IsClamped_example = new_private_key-IsClamped random clamped refl random_bytes refl

-- A service that grants one tunnel.
abbrev tunnel : QuickTunnel
tunnel = record {
  id = "6ba7";
  hostname = "a.trycloudflare.com";
  account_tag = "account";
  secret = 1 ∷ 2 ∷ [];
}

abbrev exchange : Exchange
exchange = record {
  request = true;
  response = true;
  body = some [];
  unmarshal = λ b. some (record { result = tunnel });
  parse_uuid = λ s. some (3 ∷ []);
}

abbrev client : ClientInfo
client = record { client_id = 9 ∷ []; version = "2025.4.1"; arch = "amd64" }

-- An edge that accepts every connection and then lets its loop end.
abbrev edge : Dialing ℕ
edge = record {
  is4 = λ a. true;
  tls_config = ok tt;
  dial = λ c a i. none;
  connect = λ i. none;
  serve = λ i p. some p.auth_text0;
}

abbrev granted_token : String
granted_token = ((apply_quick_url token_json base64 exchange).0)

grants : apply_quick_url token_json base64 exchange ≡ (granted_token, "a.trycloudflare.com", none)
unfolding apply_quick_url generate_token
grants = refl

serve-Ends_example :
    (body : Bytes) × (r : QuickTunnelResponse) × (id : Bytes) × (exchange.body ≡ some body)
    × (exchange.unmarshal body ≡ some r)
    × (exchange.parse_uuid r.result.id ≡ some id)
    × Ends edge
        (tunnel_token r.result id)
        client
        (257 % 2 ^ 8)
        ((get_edge_ip
          (λ n. "1")
          (λ s. 0)
          (λ s. none)
          (record { edge_ips = 7 ∷ []; ns_result = [] })
          257).1)
        ((serve edge
          (λ n. "1")
          (λ s. 0)
          (λ s. none)
          token_json
          base64
          (record { edge_ips = 7 ∷ []; ns_result = [] })
          granted_token
          client
          257).1)
serve-Ends_example =
    serve-Ends edge (λ n. "1") (λ s. 0) (λ s. none) token_json base64 token_json-IsJson
      base64-IsBase64 exchange granted_token "a.trycloudflare.com" grants
      (record { edge_ips = 7 ∷ []; ns_result = [] }) client 257

abbrev saved_data : QuickData
saved_data = record { token = "token"; quick_url = "a.trycloudflare.com"; last_active = 5 }

abbrev later : QuickOutside
later = record {
  json = quick_json;
  file = ok (100 ∷ []);
  now = 200;
  token_json = token_json;
  base64 = base64;
  exchange = exchange;
}

saves : (save quick_json 100 saved_data).1 ≡ some (100 ∷ [])
unfolding save
saves = refl

quick-save_example :
    quick later (record { token = ""; quick_url = ""; last_active = 0 })
    ≡ ok (record saved_data { last_active = 100 })
quick-save_example =
    quick-save later quick_json-IsJson saved_data
      (record { token = ""; quick_url = ""; last_active = 0 }) 100 (100 ∷ []) saves refl
      (omega arith)

-- A registration that succeeds, and two configurations with different ports.
abbrev outside : Outside
outside = record {
  random = some random;
  register = λ k. ok (record { client_id = "id"; v6 = "2606:4700::1/128" });
  decoded = λ s. [];
  base64 = record base64 { encode = λ bs. "key" };
  json = warp_json;
}

abbrev configured : ℕ → Warp
configured port = record {
  auto = true;
  port = port;
  endpoint = "";
  ipv4 = "";
  ipv6 = "";
  private_key = "";
  public_key = "";
  reserved = none;
  proxy4 = true;
  proxy6 = false;
}

abbrev made : Device ℕ
made = record {
  local_address = 4 ∷ 4 ∷ [];
  mtu = 1280;
  reserved = some [];
  port = 1;
  private_key = "key";
  public_key = "bmXOC+F1FxEMF9dyiK2H5/1SUtzH0JuVo51h2wPfgyo=";
  endpoint = "162.159.192.1:2408";
}

abbrev kept : Warp
kept = record (configured 1) {
  endpoint = "engage.cloudflareclient.com:2408";
  ipv4 = "172.16.0.2";
  ipv6 = "2606:4700::1";
  private_key = "key";
  public_key = "bmXOC+F1FxEMF9dyiK2H5/1SUtzH0JuVo51h2wPfgyo=";
  reserved = some [];
}

first_run :
    run {A = ℕ} (λ s. some 4) (λ l. none) (λ s. none) outside (err "no file") (configured 1)
    ≡ ok (kept, some (1 ∷ []), made)
unfolding run
first_run = refl

run-again_example :
    (w3 : Warp) × (run {A = ℕ}
        (λ s. some 4)
        (λ l. none)
        (λ s. none)
        outside
        (ok (1 ∷ []))
        (configured 2)
      ≡ ok (w3, none, made))
run-again_example =
    run-again {A = ℕ} (λ s. some 4) (λ l. none) (λ s. none) outside warp_json-IsJson "no file"
      (configured 1) kept 1 [] made refl first_run (configured 2) (some random) outside.register
      refl

abbrev config : Config
config = record {
  edge_ips = "bad" ∷ [];
  token = "account token";
  ha_conn = pos 0;
  bind_address = "";
  warp = some (configured 1);
}

abbrev server : EdgeServer ℕ ℕ
server = record {
  token = "account token";
  ha_conn = pos 4;
  edge_ips = [];
  edge_bind_addr = none;
  proxy = record { dial_func = warp_dial made; proxy4 = true; proxy6 = false };
  client_id = [];
  version = "2025.4.1";
  arch = "amd64";
  served = 0 ∷ 1 ∷ 2 ∷ 3 ∷ [];
}

abbrev info : BuildInfo
info = record {
  go_os = "linux";
  go_version = "go1.23";
  go_arch = "amd64";
  build_type = "DEV";
  cloudflared_version = "2025.4.1";
}

serves :
    run_server {A = ℕ} {P = ℕ}
      (λ s. some 4)
      (λ l. none)
      (λ s. none)
      (λ s. none)
      (λ s. none)
      later
      outside
      (err "no file")
      info
      []
      config
      saved_data
    ≡ ok (server, saved_data)
unfolding run_server run filter_map
serves = refl

run-IsServing_example : IsServing config server
run-IsServing_example =
    run-IsServing {A = ℕ} {P = ℕ} (λ s. some 4) (λ l. none) (λ s. none) (λ s. none) (λ s. none)
      later outside (err "no file") info [] config saved_data saved_data server serves
