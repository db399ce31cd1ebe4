-- ===== src/Client/Device/Wireguard.antt =====
-- client/tun/core/device/tun/tun_wireguard.go with tun_wireguard_unix.go and tun_wireguard_windows.go:
-- the TUN device of the systems other than Linux. WireGuard's driver is a parameter.
pub mod Opened
use cftun.Common.{
  ℕ, ◌%◌, ◌^◌, Bool, true, false, ltb, if◌then◌else◌, Option, none, some, String, List, [], ◌∷◌,
  ◌++◌, Bytes, Result, ok, err,
}
use cftun.Common.Text.{◌<>◌}
use cftun.Client.Endpoint.{Endpoint, EndpointError, mtu_is_zero, rw_is_nil, new_endpoint}

pub data System : Type 0 where
  unix windows : System

-- 4 bytes of TUN_PI on Unix.
unfoldable pub offset : System → ℕ
offset unix = 4
offset windows = 0

unfoldable pub default_mtu : System → ℕ
default_mtu unix = 1500
default_mtu windows = 0

-- What `CreateTUN` does: it fails, panics, or makes a device, which may be no NativeTun.
pub data Creation : Type 0 where
  failed panicked : String → Creation
  created : Bool → Creation

pub record Driver : Type 0 where
  pub create_tun : String → ℕ → Creation
  pub mtu : Result String ℕ

pub record Tun : Type 0 where
  pub endpoint : Endpoint
  pub mtu : ℕ
  pub name : String
  pub offset : ℕ
  -- `rSizes[0]`
  pub r_size : ℕ

pub data Event : Type 0 where
  native_created native_closed endpoint_closed : Event

unfoldable pub endpoint_error : EndpointError → String
endpoint_error mtu_is_zero = "MTU size is zero"
endpoint_error rw_is_nil = "RW interface is nil"

module _ (sys : System) where
  -- What follows the reading of the MTU; `uint32(tunMTU)` keeps 32 bits.
  unfoldable pub with_endpoint : String → ℕ → Result EndpointError Endpoint → Result String Tun
  unfolding endpoint_error offset
  with_endpoint name mtu (err e) = err ("create endpoint: " <> endpoint_error e)
  with_endpoint name mtu (ok ep) =
      ok (record { endpoint = ep; mtu = mtu; name = name; offset = offset sys; r_size = 0 })

  unfoldable pub with_mtu : String → Result String ℕ → Result String Tun
  unfolding with_endpoint new_endpoint offset
  with_mtu name (err e) = err ("get mtu: " <> e)
  with_mtu name (ok tun_mtu) =
      let mtu = tun_mtu % 2 ^ 32 in with_endpoint name mtu (new_endpoint true mtu (offset sys))

  -- What follows `createTUN`; a panic is recovered, that of the type assertion too.
  unfoldable pub opened : Driver → String → Creation → List Event × Result String Tun
  unfolding with_mtu
  opened d name (failed e) = ([], err ("create tun: " <> e))
  opened d name (panicked e) = ([], err ("open tun: " <> e))
  opened d name (created false) = (native_created ∷ [], err "open tun: interface conversion")
  opened d name (created true) = (native_created ∷ [], with_mtu name d.mtu)

  unfoldable pub forced_mtu : ℕ → ℕ
  unfolding default_mtu
  forced_mtu mtu = if ltb 0 mtu then mtu else default_mtu sys

  -- `Open`
  unfoldable pub open_device : Driver → String → ℕ → List Event × Result String Tun
  unfolding opened forced_mtu
  open_device d name mtu = opened d name (d.create_tun name (forced_mtu mtu))

-- `Read`, from what the driver returns: the size that it sets, if it sets one, and its error.
unfoldable pub read : Option ℕ → Option String → Tun → Tun × (ℕ × Option String)
read (some n) error t = (record t { r_size = n }, (n, error))
read none error t = (t, (t.r_size, error))

-- `Write` hands the driver one buffer, and `Name` drops its error.
unfoldable pub write {ℓ} : {A : Type ℓ} → (List Bytes → ℕ → A) → Bytes → Tun → A
write driver packet t = driver (packet ∷ []) t.offset

unfoldable pub device_name : Result String String → String
device_name (ok name) = name
device_name (err e) = ""

-- `Close`, with the endpoint's deferred.
unfoldable pub close : Tun → List Event
close t = native_closed ∷ endpoint_closed ∷ []
