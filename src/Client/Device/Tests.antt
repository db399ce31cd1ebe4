-- ===== src/Client/Device/Tests.antt =====
-- Runs of the opening of a device.
use cftun.Common.{◌≡◌, refl, none, some, ok, err}
use cftun.Client.Device.{Tun, System, open_device}
use cftun.Client.Device.Descriptors.{Leaves, opens, open_device-Leaves}

-- A system that refuses the MTU.
abbrev refusing : System
refusing = record {
  len = λ s. 6;
  open_tun = λ s. ok 5;
  socket = none;
  new_ifreq = λ s. none;
  set_ifreq_mtu = λ s n. some "operation not permitted";
  get_mtu = λ s. ok 1500;
  endpoint = λ fd mtu. none;
}

-- The device is left open, with an error.
left_open : opens refusing "cftun0" ≡ 1
unfolding opens
left_open = refl

with_error : (open_device refusing "cftun0" 1280).1 ≡ err "set mtu: operation not permitted"
unfolding open_device
with_error = refl

open_device-Leaves_example :
    Leaves (opens refusing "cftun0") ((open_device refusing "cftun0" 1280).0)
    × ((t : Tun)
        → (open_device refusing "cftun0" 1280).1 ≡ ok t
        → (refusing.open_tun "cftun0" ≡ ok t.fd) × (refusing.get_mtu "cftun0" ≡ ok t.mtu))
open_device-Leaves_example = open_device-Leaves refusing "cftun0" 1280
