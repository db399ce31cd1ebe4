-- ===== src/Client/Device.antt =====
-- client/tun/core/device/tun/tun_netstack.go: the TUN device on Linux. The system calls and
-- gVisor's endpoint are parameters: what they return.
pub mod Descriptors
pub mod Fd
pub mod Wireguard
mod Tests
use cftun.Common.{
  ℕ, Bool, true, false, leb, ltb, if◌then◌else◌, Option, none, some, String, List, [], ◌∷◌, ◌++◌,
  Result, ok, err,
}
use cftun.Common.Text.{◌<>◌}

-- unix.IFNAMSIZ
abbrev pub ifnamsiz : ℕ
ifnamsiz = 16

pub record Tun : Type 0 where
  pub fd : ℕ
  pub mtu : ℕ
  pub name : String

-- The descriptors that are opened and closed.
pub data Event : Type 0 where
  tun_opened tun_closed socket_opened socket_closed : Event

-- Texts of errors where there is one. `len` is the length in bytes.
pub record System : Type 0 where
  pub len : String → ℕ
  pub open_tun : String → Result String ℕ
  pub socket : Option String
  pub new_ifreq : String → Option String
  pub set_ifreq_mtu : String → ℕ → Option String
  pub get_mtu : String → Result String ℕ
  pub endpoint : ℕ → ℕ → Option String

module _ (s : System) where
  -- The part of `setMTU` behind its socket, up to the deferred `Close`.
  unfoldable pub request_mtu : String → ℕ → Option String → Option String
  request_mtu name n (some e) = some e
  request_mtu name n none = s.set_ifreq_mtu name n

  unfoldable pub on_socket : String → ℕ → Option String → List Event × Option String
  unfolding request_mtu
  on_socket name n (some e) = ([], some e)
  on_socket name n none =
      (socket_opened ∷ socket_closed ∷ [], request_mtu name n (s.new_ifreq name))

  unfoldable pub set_mtu : String → ℕ → List Event × Option String
  unfolding on_socket
  set_mtu name n = on_socket name n s.socket

  unfoldable pub with_endpoint : Tun → Option String → Result String Tun
  with_endpoint t (some e) = err ("create endpoint: " <> e)
  with_endpoint t none = ok t

  unfoldable pub with_mtu : String → ℕ → Result String ℕ → Result String Tun
  unfolding with_endpoint
  with_mtu name fd (err e) = err ("get mtu: " <> e)
  with_mtu name fd (ok mtu) =
      with_endpoint (record { fd = fd; mtu = mtu; name = name }) (s.endpoint fd mtu)

  -- What follows `setMTU`, which is skipped for an MTU of 0.
  unfoldable pub mtu_set : String → ℕ → List Event × Option String → List Event × Result String Tun
  unfolding with_mtu
  mtu_set name fd (events, some e) = (events, err ("set mtu: " <> e))
  mtu_set name fd (events, none) = (events, with_mtu name fd (s.get_mtu name))

  unfoldable pub opened : String → ℕ → Result String ℕ → List Event × Result String Tun
  unfolding mtu_set set_mtu
  opened name mtu (err e) = ([], err ("create tun: " <> e))
  opened name mtu (ok fd) =
      let (events, result) = mtu_set name fd (if ltb 0 mtu then set_mtu name mtu else ([], none)) in
      (tun_opened ∷ events, result)

  -- `Open`
  unfoldable pub open_device : String → ℕ → List Event × Result String Tun
  unfolding opened
  open_device name mtu =
      if leb ifnamsiz (s.len name)
      then ([], err ("interface name too long: " <> name))
      else opened name mtu (s.open_tun name)

-- `Close`, with the endpoint's deferred.
unfoldable pub close : Tun → List Event
close t = tun_closed ∷ []
