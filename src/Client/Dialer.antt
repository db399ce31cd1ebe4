-- ===== src/Client/Dialer.antt =====
-- client/tun/dialer: the options that are set on a socket before it connects, on each system. The
-- system calls are a parameter: the text of their error, where there is one.
pub mod Linux
pub mod Darwin
pub mod Windows
pub mod Bsd
pub mod Dial
pub mod Bound
mod Tests
use cftun.Common.{
  ℕ, Bool, true, false, not, ◌&&◌, ◌||◌, ◌==◌, if◌then◌else◌, str_eq, Option, none, some, String,
  List, [], ◌∷◌,
}
use cftun.Common.Text.{is_empty}

pub record Options : Type 0 where
  pub interface_name : String
  pub interface_index : ℕ
  pub routing_mark : ℕ

unfoldable pub is_tcp_socket : String → Bool
is_tcp_socket network = str_eq network "tcp" || (str_eq network "tcp4" || str_eq network "tcp6")

unfoldable pub is_udp_socket : String → Bool
is_udp_socket network = str_eq network "udp" || (str_eq network "udp4" || str_eq network "udp6")

-- The calls on a socket.
pub data Call : Type 0 where
  bind_to_device : String → Call
  so_mark so_user_cookie so_rtable bound_if4 bound_if6 unicast_if4 unicast_if6 : ℕ → Call

-- `global` is none where the host of the address is no IP, and else whether it is a global unicast
-- address. `control` is the error of `RawConn.Control`, with which the function is not run.
pub record System : Type 0 where
  pub global : String → Option Bool
  pub by_name : String → Option ℕ
  pub by_index : ℕ → Option String
  pub control : Option String
  pub accepts : Call → Option String

abbrev pub skipped : Option Bool → Bool
skipped none = false
skipped (some is_global) = not is_global

-- The calls that are made, one after the other, up to the first that fails, with its error.
unfoldable pub attempt : System → List Call → List Call × Option String
attempt s [] = ([], none)
attempt s (c ∷ cs) =
    let (made, e) = attempt s cs in
    elim (s.accepts c) [ some message ↦ (c ∷ [], some message) | none ↦ (c ∷ made, e) ]

-- The guards that all systems share, around the calls.
unfoldable pub guarded :
    System → String → String → List Call × Option String → List Call × Option String
unfolding is_tcp_socket is_udp_socket
guarded s network address r =
    if not (is_tcp_socket network) && not (is_udp_socket network)
    then ([], none)
    else elim s.control [
      | some e ↦ ([], some e)
      | none ↦ (if skipped (s.global address) then ([], none) else r)
    ]

-- The index of the interface on Darwin and Windows.
unfoldable pub index_of : System → Options → ℕ
index_of s o =
    if o.interface_index == 0 && not (is_empty o.interface_name)
    then (elim (s.by_name o.interface_name) [ none ↦ 0 | some index ↦ index ])
    else o.interface_index
