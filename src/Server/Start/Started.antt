-- ===== src/Server/Start/Started.antt =====
-- What is served, with which addresses, and through what the proxy dials.
use mathlib.Core.Path.{subst}
use native.Mathlib.Decide.{dec_lt}
use cftun.Common.{
  ℕ, zero, suc, ◌<◌, ◌≡◌, refl, ap, sym, ◌∙◌, length, length-append, get_or, arith, Bool, true,
  false, Bool-cases, ◌||◌, Option, none, some, String, List, [], ◌∷◌, ◌++◌, Bytes, Result, ok, err,
  ok-injective, inl, inr,
}
use cftun.Common.Int.{ℤ, pos, negsuc}
use cftun.Server.Quick.{QuickData}
use cftun.Server.Warp.{Warp, Stop, Outside, Device, run as run_warp}
use cftun.Server.Warp.Saved.{SameFlags, run-Runs}
use cftun.Server.Start.{
  BuildInfo, Config, connections, QuickOutside, with_token, below, indices, DialFunc, net_dial,
  warp_dial, Proxy, EdgeServer, warped, proxy, serve, serve_token, run,
}

length-below : (n : ℕ) → length (below n) ≡ n
unfolding below
length-below zero = refl
length-below (suc n) = length-append (below n) (n ∷ []) ∙ (let h = length-below n in omega arith)

get_or-append_left :
    (xs ys : List ℕ) (i d : ℕ) → i < length xs → get_or (xs ++ ys) i d ≡ get_or xs i d
get_or-append_left [] ys i d h = absurd (omega arith)
get_or-append_left (x ∷ xs) ys zero d h = refl
get_or-append_left (x ∷ xs) ys (suc i) d h = get_or-append_left xs ys i d (omega arith)

get_or-append_last : (xs : List ℕ) (y d : ℕ) → get_or (xs ++ y ∷ []) (length xs) d ≡ y
get_or-append_last [] y d = refl
get_or-append_last (x ∷ xs) y d = get_or-append_last xs y d

get_or-below : (n i d : ℕ) → i < n → get_or (below n) i d ≡ i
unfolding below
get_or-below zero i d h = absurd (omega arith)
get_or-below (suc n) i d h =
    let size = length-below n in
    elim (dec_lt i n) [
      | yes less ↦ get_or-append_left (below n) (n ∷ []) i d (omega arith) ∙ get_or-below n i d less
      | no more ↦
          let last : i ≡ length (below n) = omega arith in
          ap (λ k. get_or (below n ++ n ∷ []) k d) last
          ∙ get_or-append_last (below n) n d
          ∙ omega arith
    ]

-- The number of connections that is asked for: four where none is, and none where it is negative.
pub wanted : ℤ → ℕ
wanted (pos zero) = 4
wanted (pos (suc n)) = suc n
wanted (negsuc n) = 0

length-indices : (n : ℤ) → length (indices (connections n)) ≡ wanted n
unfolding indices connections wanted
length-indices (pos zero) = length-below 4
length-indices (pos (suc n)) = length-below (suc n)
length-indices (negsuc n) = refl

get_or-indices : (n : ℤ) (i d : ℕ) → i < length (indices n) → get_or (indices n) i d ≡ i
unfolding indices
get_or-indices (pos n) i d h = get_or-below n i d (let e = length-below n in omega arith)
get_or-indices (negsuc n) i d h = absurd (omega arith)

-- A flag of the WARP configuration, off where there is none.
pub flag : (Warp → Bool) → Option Warp → Bool
flag f none = false
flag f (some w) = f w

pub through_warp : {A : Type 0} → DialFunc A → Bool
through_warp net_dial = false
through_warp (warp_dial d) = true

or-false : (a b : Bool) → a || b ≡ false → (a ≡ false) × (b ≡ false)
or-false false b h = (refl, h)
or-false true b h = cc

-- Without WARP.
abbrev plain : {A : Type 0} → Proxy A
plain = record { dial_func = net_dial; proxy4 = false; proxy6 = false }

-- A proxy that follows the configuration.
pub record Proxied {A : Type 0} (w : Option Warp) (p : Proxy A) : Type 0 where
  pub family4 : p.proxy4 ≡ flag (λ v. v.proxy4) w
  pub family6 : p.proxy6 ≡ flag (λ v. v.proxy6) w
  pub dials : through_warp p.dial_func ≡ (flag (λ v. v.proxy4) w || flag (λ v. v.proxy6) w)

pub record IsServing {A P : Type 0} (c : Config) (e : EdgeServer A P) : Type 0 where
  pub proxied : Proxied c.warp e.proxy
  pub number : length e.served ≡ wanted c.ha_conn
  pub each : (i d : ℕ) → i < length e.served → get_or e.served i d ≡ i

module _ {A P : Type 0} (parse_addr : String → Option A) (create_tun : List A → Option String)
    (dialed : String → Option String) (parse_port : String → Option P)
    (parse_ip : String → Option Bytes) where
  warped-Proxied :
      (w : Warp) (o : Outside) (file : Result String Bytes)
      (r : Result Stop (Warp × Option Bytes × Device A)) (p : Proxy A)
      → w.proxy4 || w.proxy6 ≡ true
      → run_warp parse_addr create_tun dialed o file w ≡ r
      → warped parse_addr create_tun dialed parse_port parse_ip r ≡ ok p
      → Proxied (some w) p
  unfolding warped flag through_warp SameFlags
  warped-Proxied w o file (err s) p on e h = cc
  warped-Proxied w o file (ok (w', f, d)) p on e h =
      let flags : SameFlags w w' =
        (run-Runs parse_addr create_tun dialed o file w w' f d e).flags in
      let made : Proxy A = record {
        dial_func = warp_dial d;
        proxy4 = w'.proxy4;
        proxy6 = w'.proxy6;
      } in
      let same : made ≡ p = ok-injective {E = Stop} _ p h in
      record {
        family4 = ap (λ (v : Proxy A). v.proxy4) (sym same) ∙ flags.0;
        family6 = ap (λ (v : Proxy A). v.proxy6) (sym same) ∙ flags.1;
        dials = ap (λ (v : Proxy A). through_warp v.dial_func) (sym same) ∙ sym on;
      }

  proxy-Proxied :
      (o : Outside) (file : Result String Bytes) (w : Option Warp) (p : Proxy A)
      → proxy parse_addr create_tun dialed parse_port parse_ip o file w ≡ ok p
      → Proxied w p
  unfolding proxy flag through_warp
  proxy-Proxied o file none p h =
      subst (Proxied none) (ok-injective {E = Stop} plain p h)
        (record { family4 = refl; family6 = refl; dials = refl })
  proxy-Proxied o file (some w) p h = elim (Bool-cases (w.proxy4 || w.proxy6)) [
    | inl t ↦ warped-Proxied w o file _ p t refl cc
    | inr f ↦
        let (f4, f6) = or-false w.proxy4 w.proxy6 f in
        let same : plain ≡ p = cc in
        subst (Proxied (some w)) same (record { family4 = sym f4; family6 = sym f6; dials = sym f })
  ]

  -- When Run returns: the proxy's flag of each address family is the one of the WARP configuration,
  -- off where there is none; it dials through WARP exactly where one of the two is on; and as many
  -- goroutines serve as connections are asked for, four where the number is 0 and none where it is
  -- negative, with the indices from 0 on, each once.
  pub run-IsServing :
      (q : QuickOutside) (o : Outside) (file : Result String Bytes) (info : BuildInfo)
      (client_id : Bytes) (c : Config) (qd qd' : QuickData) (e : EdgeServer A P)
      → run parse_addr create_tun dialed parse_port parse_ip q o file info client_id c qd
        ≡ ok (e, qd')
      → IsServing c e
  unfolding run serve_token serve
  run-IsServing q o file info client_id c qd qd' e h = from_token (with_token q c qd) h
    where
      from_proxy :
          (tq : String × QuickData) (p : Result Stop (Proxy A))
          → proxy parse_addr create_tun dialed parse_port parse_ip o file c.warp ≡ p
          → serve parse_addr create_tun dialed parse_port parse_ip c info client_id tq p
            ≡ ok (e, qd')
          → IsServing c e
      from_proxy tq (err s) k1 k2 = cc
      from_proxy (token, qd1) (ok p) k1 k2 =
          let served : e.served ≡ indices (connections c.ha_conn) = sym (
            ap (λ (v : EdgeServer A P × QuickData). (v.0).served)
              (ok-injective {E = Stop} _ (e, qd') k2)) in
          let through : p ≡ e.proxy =
            ap (λ (v : EdgeServer A P × QuickData). (v.0).proxy)
              (ok-injective {E = Stop} _ (e, qd') k2) in
          record {
            proxied = subst (Proxied c.warp) through (proxy-Proxied o file c.warp p k1);
            number = ap (λ (v : List ℕ). length v) served ∙ length-indices c.ha_conn;
            each = λ i d less.
                ap (λ (v : List ℕ). get_or v i d) served
                ∙ get_or-indices (connections c.ha_conn) i d
                    (subst (λ (v : List ℕ). i < length v) served less);
          }

      from_token :
          (t : Result Stop (String × QuickData))
          → serve_token parse_addr create_tun dialed parse_port parse_ip o file c info client_id t
            ≡ ok (e, qd')
          → IsServing c e
      from_token (err s) k = cc
      from_token (ok tq) k = from_proxy tq _ refl k
