-- ===== src/Server/Start/Codecs.antt =====
-- Codecs for the runs beside this file: they keep what they are given, and have nothing else of
-- encoding/json and encoding/base64.
use Prim.Native.Char.{char, code}
use Prim.Native.String.{[], ◌∷◌}
use mathlib.Core.List as L
use mathlib.Core.List.{List}
use cftun.Common.{
  ℕ, zero, suc, ◌+◌, ◌≡◌, refl, ap, ap₂, sym, ◌∙◌, Bool, true, false, ◌&&◌, ◌==◌, str_eq, eq_iff,
  if◌then◌else◌, length, take, drop, not, take-append_left, drop-append_left, Option, none, some,
  String, Bytes, Result, ok, err, arith,
}
use cftun.Common.Codec.{Json, IsJson, Base64, IsBase64}
use cftun.Server.Token.{TunnelToken}
use cftun.Server.Quick.{QuickData}
use cftun.Server.Warp.{Warp}

-- A number as so many letters and a comma.
abbrev unary : ℕ → String → String
unary zero s = char b',' tt ∷ s
unary (suc n) s = char b'a' tt ∷ unary n s

abbrev encode : Bytes → String
encode L.[] = ""
encode (L.◌∷◌ n ns) = unary n (encode ns)

abbrev decode : String → ℕ → Bytes
decode [] k = L.[]
decode (ch ∷ s) k = if code ch == b'a' then decode s (suc k) else L.◌∷◌ k (decode s 0)

decode-unary : (n : ℕ) (s : String) (k : ℕ) → decode (unary n s) k ≡ L.◌∷◌ (n + k) (decode s 0)
decode-unary zero s k = ap (λ v. L.◌∷◌ v (decode s 0)) (omega arith)
decode-unary (suc n) s k = decode-unary n s (suc k) ∙ ap (λ v. L.◌∷◌ v (decode s 0)) (omega arith)

decode-encode : (bs : Bytes) → decode (encode bs) 0 ≡ bs
decode-encode L.[] = refl
decode-encode (L.◌∷◌ n ns) =
    decode-unary n (encode ns) 0
    ∙ ap₂ (λ v (vs : Bytes). L.◌∷◌ v vs) (omega arith) (decode-encode ns)

abbrev pub base64 : Base64
base64 = record { encode = encode; decode = λ s. ok (decode s 0) }

pub base64-IsBase64 : IsBase64 base64
base64-IsBase64 = record { decode-encode = λ bs. ap (λ (v : Bytes). ok v) (decode-encode bs) }

-- A codec of the values that have a code, where a code gives the value back.
module _ {A : Type 0} (code_of : A → Option Bytes) (value : Bytes → A) where
  abbrev marshal : Option Bytes → Result String Bytes
  marshal none = err "not supported"
  marshal (some bs) = ok bs

  abbrev pub coded : Json A
  coded = record { marshal = λ a. marshal (code_of a); unmarshal = λ bs b. (value bs, none) }

  marshal-some : (o : Option Bytes) (bs : Bytes) → marshal o ≡ ok bs → o ≡ some bs
  marshal-some none bs h = cc
  marshal-some (some b) bs h = cc

  pub coded-IsJson : ((a : A) (bs : Bytes) → code_of a ≡ some bs → value bs ≡ a) → IsJson coded
  coded-IsJson law = record {
    unmarshal-marshal = λ a b bs e. ap (λ v. (v, none)) (law a bs (marshal-some (code_of a) bs e));
  }

and_true : (a b : Bool) → a && b ≡ true → (a ≡ true) × (b ≡ true)
and_true false b h = cc
and_true true b h = (refl, h)

same_text : (s t : String) → str_eq s t ≡ true → s ≡ t
same_text s t h = (eq_iff s t).0 h

abbrev guarded : Bool → Bytes → Option Bytes
guarded false c = none
guarded true c = some c

guarded-some : (b : Bool) (c bs : Bytes) → guarded b c ≡ some bs → (b ≡ true) × (c ≡ bs)
guarded-some false c bs h = cc
guarded-some true c bs h = (refl, cc)

-- Tokens of one account.
abbrev token_code : TunnelToken → Option Bytes
token_code t =
    guarded (str_eq t.account_tag "account")
      (L.◌∷◌ (length t.tunnel_secret) (L.◌++◌ t.tunnel_secret t.tunnel_id))

abbrev token_value : Bytes → TunnelToken
token_value L.[] = record { account_tag = ""; tunnel_secret = L.[]; tunnel_id = L.[] }
token_value (L.◌∷◌ n bs) = record {
  account_tag = "account";
  tunnel_secret = take n bs;
  tunnel_id = drop n bs;
}

token_value-token_code :
    (t : TunnelToken) (bs : Bytes) → token_code t ≡ some bs → token_value bs ≡ t
token_value-token_code t bs h =
    let (e, c) = guarded-some _ _ bs h in
    ap token_value (sym c)
    ∙ ap₂ (λ s i. record { account_tag = "account"; tunnel_secret = s; tunnel_id = i })
        (take-append_left t.tunnel_secret t.tunnel_id)
        (drop-append_left t.tunnel_secret t.tunnel_id)
    ∙ ap (λ v. record t { account_tag = v }) (sym (same_text t.account_tag "account" e))

abbrev pub token_json : Json TunnelToken
token_json = coded token_code token_value

pub token_json-IsJson : IsJson token_json
token_json-IsJson = coded-IsJson token_code token_value token_value-token_code

-- Quick tunnels of one token and domain.
abbrev quick_code : QuickData → Option Bytes
quick_code q =
    guarded (str_eq q.token "token" && str_eq q.quick_url "a.trycloudflare.com")
      (L.◌∷◌ q.last_active L.[])

abbrev quick_value : Bytes → QuickData
quick_value L.[] = record { token = ""; quick_url = ""; last_active = 0 }
quick_value (L.◌∷◌ n bs) = record {
  token = "token";
  quick_url = "a.trycloudflare.com";
  last_active = n;
}

quick_value-quick_code : (q : QuickData) (bs : Bytes) → quick_code q ≡ some bs → quick_value bs ≡ q
quick_value-quick_code q bs h =
    let (e, c) = guarded-some _ _ bs h in
    let (e1, e2) = and_true _ _ e in
    ap quick_value (sym c)
    ∙ ap₂ (λ t u. record { token = t; quick_url = u; last_active = q.last_active })
        (sym (same_text q.token "token" e1)) (sym (same_text q.quick_url "a.trycloudflare.com" e2))

abbrev pub quick_json : Json QuickData
quick_json = coded quick_code quick_value

pub quick_json-IsJson : IsJson quick_json
quick_json-IsJson = coded-IsJson quick_code quick_value quick_value-quick_code

-- What a registration writes where the service and the random source give fixed texts, on a port.
abbrev registered_warp : ℕ → Warp
registered_warp port = record {
  auto = true;
  port = port;
  endpoint = "engage.cloudflareclient.com:2408";
  ipv4 = "172.16.0.2";
  ipv6 = "2606:4700::1/128";
  private_key = "key";
  public_key = "bmXOC+F1FxEMF9dyiK2H5/1SUtzH0JuVo51h2wPfgyo=";
  reserved = some L.[];
  proxy4 = true;
  proxy6 = false;
}

-- Equal to that in every field.
abbrev is_registered : Warp → Bool
is_registered w =
    str_eq w.endpoint "engage.cloudflareclient.com:2408"
    && (str_eq w.ipv4 "172.16.0.2"
        && (str_eq w.ipv6 "2606:4700::1/128"
            && (str_eq w.private_key "key"
                && str_eq w.public_key "bmXOC+F1FxEMF9dyiK2H5/1SUtzH0JuVo51h2wPfgyo=")))

abbrev has_flags : Warp → Bool
has_flags w = w.auto && (w.proxy4 && not w.proxy6)

abbrev is_bare : Option Bytes → Bool
is_bare (some L.[]) = true
is_bare o = false

abbrev warp_code : Warp → Option Bytes
warp_code w = guarded (is_registered w && (has_flags w && is_bare w.reserved)) (L.◌∷◌ w.port L.[])

abbrev warp_value : Bytes → Warp
warp_value L.[] = registered_warp 0
warp_value (L.◌∷◌ n bs) = registered_warp n

is_bare_lem : (o : Option Bytes) → is_bare o ≡ true → o ≡ some L.[]
is_bare_lem none h = cc
is_bare_lem (some L.[]) h = refl
is_bare_lem (some (L.◌∷◌ b bs)) h = cc

not-true : (b : Bool) → not b ≡ true → b ≡ false
not-true false h = refl
not-true true h = cc

warp_value-warp_code : (w : Warp) (bs : Bytes) → warp_code w ≡ some bs → warp_value bs ≡ w
warp_value-warp_code w bs h =
    let (e, c) = guarded-some _ _ bs h in
    let (texts, e1) = and_true _ _ e in
    let (flags, bare) = and_true _ _ e1 in
    let (auto, proxies) = and_true _ _ flags in
    let (p4, p6) = and_true _ _ proxies in
    let (t1, r1) = and_true _ _ texts in
    let (t2, r2) = and_true _ _ r1 in
    let (t3, r3) = and_true _ _ r2 in
    let (t4, t5) = and_true _ _ r3 in
    ap warp_value (sym c)
    ∙ sym (
        ap (λ v. record w { endpoint = v }) (same_text w.endpoint _ t1)
        ∙ ap (λ v. record w { endpoint = "engage.cloudflareclient.com:2408"; ipv4 = v })
            (same_text w.ipv4 _ t2)
        ∙ ap
            (λ v. record w {
              endpoint = "engage.cloudflareclient.com:2408";
              ipv4 = "172.16.0.2";
              ipv6 = v;
            })
            (same_text w.ipv6 _ t3)
        ∙ ap
            (λ v. record (registered_warp w.port) {
              auto = w.auto;
              proxy4 = w.proxy4;
              proxy6 = w.proxy6;
              reserved = w.reserved;
              public_key = w.public_key;
              private_key = v;
            })
            (same_text w.private_key _ t4)
        ∙ ap
            (λ v. record (registered_warp w.port) {
              auto = w.auto;
              proxy4 = w.proxy4;
              proxy6 = w.proxy6;
              reserved = w.reserved;
              public_key = v;
            })
            (same_text w.public_key _ t5)
        ∙ ap
            (λ v. record (registered_warp w.port) {
              auto = w.auto;
              proxy4 = w.proxy4;
              proxy6 = w.proxy6;
              reserved = v;
            })
            (is_bare_lem w.reserved bare)
        ∙ ap
            (λ v. record (registered_warp w.port) {
              auto = v;
              proxy4 = w.proxy4;
              proxy6 = w.proxy6;
            })
            auto
        ∙ ap (λ v. record (registered_warp w.port) { proxy4 = v; proxy6 = w.proxy6 }) p4
        ∙ ap (λ v. record (registered_warp w.port) { proxy6 = v }) (not-true w.proxy6 p6))

abbrev pub warp_json : Json Warp
warp_json = coded warp_code warp_value

pub warp_json-IsJson : IsJson warp_json
warp_json-IsJson = coded-IsJson warp_code warp_value warp_value-warp_code
