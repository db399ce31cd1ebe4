-- ===== src/Client/Device/Descriptors.antt =====
-- Which descriptors the opening of a device leaves open.
use cftun.Common.{
  ℕ, ◌≡◌, refl, ap, ◌∙◌, Bool, true, false, Bool-cases, leb, ltb, if◌then◌else◌, Option, none, some,
  String, List, [], ◌∷◌, Result, ok, ok-injective, err, inl, inr, count, arith,
}
use cftun.Client.Device.{
  ifnamsiz, Tun, Event, tun_opened, tun_closed, socket_opened, socket_closed, System, on_socket,
  set_mtu, with_endpoint, with_mtu, mtu_set, opened, open_device,
}

unfoldable pub opens_tun : Event → Bool
opens_tun tun_opened = true
opens_tun e = false

unfoldable pub closes_tun : Event → Bool
closes_tun tun_closed = true
closes_tun e = false

unfoldable pub opens_socket : Event → Bool
opens_socket socket_opened = true
opens_socket e = false

unfoldable pub closes_socket : Event → Bool
closes_socket socket_closed = true
closes_socket e = false

-- What is left open by events, of which so many open the device: that device, and no socket.
pub record Leaves (tuns : ℕ) (events : List Event) : Type 0 where
  pub opened_tuns : count opens_tun events ≡ tuns
  pub closed_tuns : count closes_tun events ≡ 0
  pub sockets : count opens_socket events ≡ count closes_socket events

-- Whether the device is opened.
unfoldable pub opens : System → String → ℕ
opens s name =
    if leb ifnamsiz (s.len name) then 0 else elim (s.open_tun name) [ err e ↦ 0 | ok fd ↦ 1 ]

set_mtu-Leaves :
    (s : System) (name : String) (n : ℕ) (r : Option String) → Leaves 0 ((on_socket s name n r).0)
unfolding on_socket opens_tun closes_tun opens_socket closes_socket
set_mtu-Leaves s name n (some e) = record { opened_tuns = refl; closed_tuns = refl; sockets = refl }
set_mtu-Leaves s name n none = record { opened_tuns = refl; closed_tuns = refl; sockets = refl }

mtu_set-Leaves :
    (s : System) (name : String) (fd : ℕ) (r : List Event × Option String)
    → Leaves 0 (r.0)
    → Leaves 0 ((mtu_set s name fd r).0)
unfolding mtu_set
mtu_set-Leaves s name fd (events, some e) h = h
mtu_set-Leaves s name fd (events, none) h = h

first_mtu-Leaves :
    (s : System) (name : String) (mtu : ℕ)
    → Leaves 0 ((if ltb 0 mtu then set_mtu s name mtu else ([], none)).0)
unfolding set_mtu
first_mtu-Leaves s name mtu = elim (Bool-cases (ltb 0 mtu)) [
  | inl t ↦ rw t (set_mtu-Leaves s name mtu s.socket)
  | inr f ↦ rw f (record { opened_tuns = refl; closed_tuns = refl; sockets = refl })
]

add_tun : (events : List Event) → Leaves 0 events → Leaves 1 (tun_opened ∷ events)
unfolding opens_tun closes_tun opens_socket closes_socket
add_tun events h = record {
  opened_tuns = let a = h.opened_tuns in omega arith;
  closed_tuns = let a = h.closed_tuns in omega arith;
  sockets = let a = h.sockets in omega arith;
}

endpoint-ok : (s : System) (t u : Tun) (r : Option String) → with_endpoint s t r ≡ ok u → t ≡ u
unfolding with_endpoint
endpoint-ok s t u (some e) h = cc
endpoint-ok s t u none h = ok-injective {E = String} t u h

mtu-ok :
    (s : System) (name : String) (fd : ℕ) (r : Result String ℕ) (t : Tun)
    → with_mtu s name fd r ≡ ok t
    → (fd ≡ t.fd) × (r ≡ ok t.mtu)
unfolding with_mtu
mtu-ok s name fd (err e) t h = cc
mtu-ok s name fd (ok mtu) t h =
    let e = endpoint-ok s (record { fd = fd; mtu = mtu; name = name }) t (s.endpoint fd mtu) h in
    (ap (λ (v : Tun). v.fd) e, ap (λ (v : Tun). ok v.mtu) e)

mtu_set-ok :
    (s : System) (name : String) (fd : ℕ) (r : List Event × Option String) (t : Tun)
    → (mtu_set s name fd r).1 ≡ ok t
    → (fd ≡ t.fd) × (s.get_mtu name ≡ ok t.mtu)
unfolding mtu_set
mtu_set-ok s name fd (events, some e) t h = cc
mtu_set-ok s name fd (events, none) t h = mtu-ok s name fd (s.get_mtu name) t h

-- Open leaves no socket open; it leaves the device's descriptor open whenever the device was
-- opened, also where it then returns an error; and it opens nothing for a name of 16 bytes or more.
-- Where it returns a device, that has the descriptor and the MTU that the system gave.
pub open_device-Leaves :
    (s : System) (name : String) (mtu : ℕ)
    → Leaves (opens s name) ((open_device s name mtu).0)
      × ((t : Tun)
          → (open_device s name mtu).1 ≡ ok t
          → (s.open_tun name ≡ ok t.fd) × (s.get_mtu name ≡ ok t.mtu))
unfolding open_device opens opened
open_device-Leaves s name mtu = elim (Bool-cases (leb ifnamsiz (s.len name))) [
  | inl long ↦
      rw long (record { opened_tuns = refl; closed_tuns = refl; sockets = refl }, λ t h. cc)
  | inr short ↦ rw short (go (s.open_tun name) refl)
]
  where
    go :
        (r : Result String ℕ)
        → s.open_tun name ≡ r
        → Leaves (elim r [ err e ↦ 0 | ok fd ↦ 1 ]) ((opened s name mtu r).0)
          × ((t : Tun)
              → (opened s name mtu r).1 ≡ ok t
              → (s.open_tun name ≡ ok t.fd) × (s.get_mtu name ≡ ok t.mtu))
    go (err e) h = (record { opened_tuns = refl; closed_tuns = refl; sockets = refl }, λ t k. cc)
    go (ok fd) h = (
      add_tun _ (mtu_set-Leaves s name fd _ (first_mtu-Leaves s name mtu)),
      λ t k. let (f, m) = mtu_set-ok s name fd _ t k in (h ∙ ap (λ (v : ℕ). ok v) f, m),
    )
