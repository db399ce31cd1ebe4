-- ===== src/Server/Proxy/Family.antt =====
-- Which traffic goes through the configured dialer.
use text.Mathlib.TextLemmas.{cons-append}
use cftun.Common.{
  ℕ, ◌≡◌, refl, Bool, true, false, some, String, ◌==◌, arith, if◌then◌else◌, Bytes, Bool-cases, inl,
  inr,
}
use cftun.Common.Text.{◌<>◌}
use cftun.Server.Proxy.{Proxy, dial_func, net_dial, is_ipv6, choose}
use cftun.Server.Packet.{Packet, address}

-- The first byte of a text that goes on.
is_ipv6-append : (s t : String) {b : Bool} → is_ipv6 s ≡ some b → is_ipv6 (s <> t) ≡ some b
unfolding is_ipv6
is_ipv6-append String.[] t h = cc
is_ipv6-append (String.◌∷◌ c s) t h = rw (cons-append c s t) h

bracket : (t : String) → is_ipv6 ("[" <> t) ≡ some true
unfolding is_ipv6
bracket t = is_ipv6-append "[" t refl

-- A packet for an IPv4 destination is dialed through the configured dialer exactly when IPv4 is
-- proxied, any other exactly when IPv6 is, and neither panics, where an IPv4 address is printed
-- with a first byte that is no bracket.
pub choose-address :
    (d : Proxy) (ip_string : Bytes → String) (itoa : ℕ → String) (p : Packet)
    → is_ipv6 (ip_string p.dest_ip) ≡ some false
    → choose d (address ip_string itoa p)
      ≡ some (if (if p.ip_version == 4 then d.proxy4 else d.proxy6) then dial_func else net_dial)
unfolding choose address
choose-address d ip_string itoa p h = elim (Bool-cases (p.ip_version == 4)) [
  | inl four ↦ rw (four, is_ipv6-append (ip_string p.dest_ip) (":" <> itoa p.dest_port) h, choose)
  | inr six ↦
      rw (six, bracket (ip_string p.dest_ip <> "]:" <> itoa p.dest_port), choose) (ground arith)
]
