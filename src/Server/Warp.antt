-- ===== src/Server/Warp.antt =====
-- server/warp.go: the WARP tunnel that the proxy may dial through. The file system, the
-- registration service, the parser of addresses and the WireGuard device are parameters: a device
-- is what it is given.
pub mod Saved
pub mod Restart
use cftun.Common.{
  ℕ, Bool, true, false, not, ◌&&◌, if◌then◌else◌, Option, none, some, String, List, [], ◌∷◌, Bytes,
  Result, ok, err,
}
use cftun.Common.Text.{◌<>◌, contains, before, is_empty}
use cftun.Common.Codec.{Json, Base64}
use cftun.Server.Key.{string, new_private_key}

-- `reserved` is none where it is nil.
pub record Warp : Type 0 where
  pub auto : Bool
  pub port : ℕ
  pub endpoint : String
  pub ipv4 : String
  pub ipv6 : String
  pub private_key : String
  pub public_key : String
  pub reserved : Option Bytes
  pub proxy4 : Bool
  pub proxy6 : Bool

-- How the program ends: by `log.Fatalln`, or by a panic.
pub data Stop : Type 0 where
  fatal : String → Stop
  panic : Stop

unfoldable pub verify : Warp → Bool
verify w =
    not (is_empty w.endpoint)
    && not (is_empty w.ipv4)
    && not (is_empty w.private_key)
    && not (is_empty w.public_key)

-- What the service answers, as far as it is looked at: the texts at `config.client_id` and at
-- `config.interface.addresses.v6` of the body.
pub record Registration : Type 0 where
  pub client_id : String
  pub v6 : String

-- What is outside: the random source, the service, with the text of its error, and the bytes that
-- base64 decoding returns, also on an error.
pub record Outside : Type 0 where
  pub random : Option Bytes
  pub register : Bytes → Result String Registration
  pub decoded : String → Bytes
  pub base64 : Base64
  pub json : Json Warp

module _ (o : Outside) where
  -- What the registration writes into the struct.
  unfoldable pub fill : Bytes → Registration → Warp → Warp
  unfolding string
  fill key r w = record w {
    reserved = some (o.decoded r.client_id);
    ipv4 = "172.16.0.2";
    ipv6 = r.v6;
    private_key = string o.base64 key;
    public_key = "bmXOC+F1FxEMF9dyiK2H5/1SUtzH0JuVo51h2wPfgyo=";
    endpoint = "engage.cloudflareclient.com:2408";
  }

  unfoldable pub registered : Bytes → Result String Registration → Warp → Result Stop Warp
  unfolding fill
  registered key (err e) w =
      err (fatal ("A request error occurred while automatically applying for Warp.: " <> e))
  registered key (ok r) w =
      if is_empty r.v6
      then err (fatal "Failed to automatically apply for Warp.")
      else ok (fill key r w)

  -- A nil key is dereferenced.
  unfoldable pub with_key : Option Bytes → Warp → Result Stop Warp
  unfolding registered
  with_key none w = err panic
  with_key (some key) w = registered key (o.register key) w

  unfoldable pub apply : Warp → Result Stop Warp
  unfolding with_key new_private_key
  apply w = with_key (new_private_key o.random) w

  unfoldable pub written : Result String Bytes → Bytes
  written (err e) = []
  written (ok buf) = buf

  -- What is written to the file: the error of the encoder is dropped, with no bytes.
  unfoldable pub save : Warp → Bytes
  unfolding written
  save w = written (o.json.marshal w)

  unfoldable pub saved : Result Stop Warp → Result Stop (Warp × Option Bytes)
  unfolding save
  saved (err s) = err s
  saved (ok w) = ok (w, some (save w))

  -- With what is written to the file, if anything. The error of the decoder is dropped.
  unfoldable pub load : Result String Bytes → Warp → Result Stop (Warp × Option Bytes)
  unfolding saved apply
  load (err e) w = saved (apply w)
  load (ok buf) w =
      ok (record ((o.json.unmarshal buf w).0) { proxy4 = w.proxy4; proxy6 = w.proxy6 }, none)

-- `if strings.Contains(ip, "/") { ip = strings.Split(ip, "/")[0] }`
unfoldable pub without_length : String → String
unfolding contains before
without_length ip = if contains b'/' ip then before b'/' ip else ip

unfoldable pub strip : Warp → Warp
unfolding without_length
strip w = record w { ipv4 = without_length w.ipv4; ipv6 = without_length w.ipv6 }

-- What the device is made of.
pub record Device (A : Type 0) : Type 0 where
  pub local_address : List A
  pub mtu : ℕ
  pub reserved : Option Bytes
  pub port : ℕ
  pub private_key : String
  pub public_key : String
  pub endpoint : String

-- `dialed` is the remote address of the socket that `net.DialTimeout` returns, where it returns
-- one.
unfoldable pub resolve_endpoint : (String → Option String) → String → String
resolve_endpoint dialed endpoint = elim (dialed endpoint) [
  | some addr ↦ addr
  | none ↦ "162.159.192.1:2408"
]

module _ {A : Type 0} (parse : String → Option A) (create_tun : List A → Option String)
    (dialed : String → Option String) where
  -- `netip.MustParseAddr` panics on a text that is no address.
  unfoldable pub must_parse : Option A → Result Stop A
  must_parse none = err panic
  must_parse (some addr) = ok addr

  unfoldable pub second_address : String → A → Result Stop (List A)
  unfolding must_parse
  second_address ipv6 ip4 =
      if is_empty ipv6
      then ok (ip4 ∷ [])
      else elim (must_parse (parse ipv6)) [ err s ↦ err s | ok ip6 ↦ ok (ip4 ∷ ip6 ∷ []) ]

  unfoldable pub local_addresses : Warp → Result Stop (List A)
  unfolding second_address
  local_addresses w = elim (must_parse (parse w.ipv4)) [
    | err s ↦ err s
    | ok ip4 ↦ second_address w.ipv6 ip4
  ]

  unfoldable pub device : Warp → List A → Device A
  unfolding resolve_endpoint
  device w addresses = record {
    local_address = addresses;
    mtu = 1280;
    reserved = w.reserved;
    port = w.port;
    private_key = w.private_key;
    public_key = w.public_key;
    endpoint = resolve_endpoint dialed w.endpoint;
  }

  unfoldable pub with_tun : Warp → List A → Option String → Result Stop (Device A)
  unfolding device
  with_tun w addresses (some e) = err (fatal e)
  with_tun w addresses none = ok (device w addresses)

  unfoldable pub created : Warp → Result Stop (List A) → Result Stop (Device A)
  unfolding with_tun
  created w (err s) = err s
  created w (ok addresses) = with_tun w addresses (create_tun addresses)

  unfoldable pub finish :
      Warp → Option Bytes → Result Stop (Device A) → Result Stop (Warp × Option Bytes × Device A)
  finish w file (err s) = err s
  finish w file (ok d) = ok (w, file, d)

  -- `Run` from the stripping of the addresses on.
  unfoldable pub start : Warp × Option Bytes → Result Stop (Warp × Option Bytes × Device A)
  unfolding strip local_addresses created finish
  start (w, file) = finish (strip w) file (created (strip w) (local_addresses (strip w)))

  unfoldable pub started :
      Result Stop (Warp × Option Bytes) → Result Stop (Warp × Option Bytes × Device A)
  unfolding start
  started (err s) = err s
  started (ok r) = start r

  -- `file` is what reading ".warp.json" returns; the results are the struct, what is written to the
  -- file, and the device.
  unfoldable pub run :
      Outside → Result String Bytes → Warp → Result Stop (Warp × Option Bytes × Device A)
  unfolding started load verify
  run o file w =
      if w.auto
      then started (load o file w)
      else if verify w
      then start (w, none)
      else err (fatal "The warp parameter is incorrect.")
