-- ===== src/Client/Device/Wireguard/Opened.antt =====
-- What the opening of a device returns and leaves open.
use cftun.Common.{
  ℕ, ◌%◌, ◌^◌, ◌<◌, ◌≡◌, refl, true, false, String, List, [], ◌∷◌, Result, ok, err, arith,
}
use cftun.Client.Endpoint.{new_endpoint}
use cftun.Client.Device.Wireguard.{
  System, offset, Creation, failed, panicked, created, Driver, Tun, Event, native_created, with_mtu,
  with_endpoint, opened, open_device, forced_mtu,
}

-- A device that is made is left open.
abbrev pub leaves : Creation → List Event
leaves (created native) = native_created ∷ []
leaves _ = []

-- What a device has that is returned.
pub record IsReady (sys : System) (d : Driver) (t : Tun) : Type 0 where
  pub reported : (n : ℕ) × (d.mtu ≡ ok n) × (t.mtu ≡ n % 2 ^ 32)
  pub positive : 0 < t.mtu
  pub endpoint_mtu : t.endpoint.mtu ≡ t.mtu
  pub endpoint_offset : t.endpoint.offset ≡ offset sys

with_mtu-IsReady :
    (sys : System) (d : Driver) (name : String) (r : Result String ℕ) (t : Tun)
    → d.mtu ≡ r
    → with_mtu sys name r ≡ ok t
    → IsReady sys d t
unfolding with_mtu with_endpoint new_endpoint
with_mtu-IsReady sys d name (err e) t q h = cc
with_mtu-IsReady sys d name (ok n) t q h = record {
  reported = (n, q, ground arith);
  positive = ground arith;
  endpoint_mtu = ground arith;
  endpoint_offset = ground arith;
}

opened-IsReady :
    (sys : System) (d : Driver) (name : String) (c : Creation) (t : Tun)
    → (opened sys d name c).1 ≡ ok t
    → (c ≡ created true) × IsReady sys d t
unfolding opened
opened-IsReady sys d name (failed e) t h = cc
opened-IsReady sys d name (panicked e) t h = cc
opened-IsReady sys d name (created false) t h = cc
opened-IsReady sys d name (created true) t h = (refl, with_mtu-IsReady sys d name d.mtu t refl h)

opened-leaves :
    (sys : System) (d : Driver) (name : String) (c : Creation) → (opened sys d name c).0 ≡ leaves c
unfolding opened
opened-leaves sys d name (failed e) = refl
opened-leaves sys d name (panicked e) = refl
opened-leaves sys d name (created false) = refl
opened-leaves sys d name (created true) = refl

-- On every system but Linux: Open asks the driver for a device with the MTU that is configured, or
-- the system's own where that is 0. A device that it returns has the MTU that the driver then
-- reports, as 32 bits and not 0, and an endpoint with this MTU and the system's offset. It closes
-- no device: one that the driver has made is left open, also where Open returns an error.
pub open_device-IsReady :
    (sys : System) (d : Driver) (name : String) (mtu : ℕ)
    → ((open_device sys d name mtu).0 ≡ leaves (d.create_tun name (forced_mtu sys mtu)))
      × ((t : Tun)
          → (open_device sys d name mtu).1 ≡ ok t
          → (d.create_tun name (forced_mtu sys mtu) ≡ created true) × IsReady sys d t)
unfolding open_device
open_device-IsReady sys d name mtu =
    let c = d.create_tun name (forced_mtu sys mtu) in
    (opened-leaves sys d name c, λ t h. opened-IsReady sys d name c t h)
