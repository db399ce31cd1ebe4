-- ===== src/Client/Device/Fd.antt =====
-- client/tun/core/device/fdbased: the device of a descriptor that is given. fd_unix.go with open_linux.go
-- and open_unix.go; on Windows there is none. gVisor's own endpoint for Linux is a parameter: its
-- error, where there is one.
use cftun.Common.{
  ℕ, ◌≡◌, ◌<◌, true, Option, none, some, String, List, [], ◌∷◌, Result, ok, err, arith,
}
use cftun.Common.Text.{◌<>◌}
use cftun.Common.Int.{ℤ}
use cftun.Client.Endpoint.{Endpoint, EndpointError, new_endpoint}
use cftun.Client.Device.Wireguard.{endpoint_error}

abbrev pub driver : String
driver = "fd"

-- On Linux the endpoint is gVisor's, and there is none here.
pub record Fd : Type 0 where
  pub fd : ℤ
  pub mtu : ℕ
  pub endpoint : Option Endpoint

unfoldable pub open_linux : (ℤ → ℕ → Option String) → ℤ → ℕ → ℕ → Result String Fd
open_linux new fd mtu offset = elim (new fd mtu) [
  | some e ↦ err ("create endpoint: " <> e)
  | none ↦ ok (record { fd = fd; mtu = mtu; endpoint = none })
]

unfoldable pub with_endpoint : ℤ → ℕ → Result EndpointError Endpoint → Result String Fd
unfolding endpoint_error
with_endpoint fd mtu (err e) = err ("create endpoint: " <> endpoint_error e)
with_endpoint fd mtu (ok ep) = ok (record { fd = fd; mtu = mtu; endpoint = some ep })

-- The file of the descriptor is no nil interface, whatever the descriptor is.
unfoldable pub open_unix : ℤ → ℕ → ℕ → Result String Fd
unfolding with_endpoint new_endpoint
open_unix fd mtu offset = with_endpoint fd mtu (new_endpoint true mtu offset)

unfoldable pub open_windows : String → ℕ → ℕ → Result String Fd
open_windows name mtu offset = err "unsupported operation"

-- `Type`, `Name` and `Close`, with the endpoint's deferred.
unfoldable pub device_type : Fd → String
device_type f = driver

unfoldable pub name : (ℤ → String) → Fd → String
name itoa f = itoa f.fd

pub data Event : Type 0 where
  fd_closed : ℤ → Event
  endpoint_closed : Event

unfoldable pub close : Fd → List Event
close f = fd_closed f.fd ∷ endpoint_closed ∷ []

-- With an MTU that is not 0, as `Open` hands on, a device is made of any descriptor.
open_unix_lem :
    (fd : ℤ) (mtu offset : ℕ)
    → 0 < mtu
    → open_unix fd mtu offset
      ≡ ok (record { fd = fd; mtu = mtu; endpoint = some (record { mtu = mtu; offset = offset }) })
unfolding open_unix
open_unix_lem fd mtu offset h = ground arith
