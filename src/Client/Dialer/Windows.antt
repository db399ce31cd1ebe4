-- ===== src/Client/Dialer/Windows.antt =====
-- client/tun/dialer/sockopt_windows.go.
use cftun.Common.{
  ℕ, ◌+◌, ◌*◌, ◌/◌, ◌%◌, ◌^◌, Bool, ◌&&◌, ◌||◌, ◌==◌, if◌then◌else◌, str_eq, Option, none, some,
  String, List, [], ◌∷◌,
}
use cftun.Client.Dialer.{Options, Call, unicast_if4, unicast_if6, System, guarded, index_of}

-- `binary.BigEndian.PutUint32`, and the same four bytes read as a number of this little-endian
-- machine.
unfoldable pub network_order : ℕ → ℕ
network_order n =
    n / 2 ^ 24 % 2 ^ 8
    + n / 2 ^ 16 % 2 ^ 8 * 2 ^ 8
    + n / 2 ^ 8 % 2 ^ 8 * 2 ^ 16
    + n % 2 ^ 8 * 2 ^ 24

unfoldable pub bind_socket_to_interface4 : System → ℕ → Call × Option String
unfolding network_order
bind_socket_to_interface4 s index = let c = unicast_if4 (network_order index) in (c, s.accepts c)

unfoldable pub bind_socket_to_interface6 : System → ℕ → Call × Option String
bind_socket_to_interface6 s index = (unicast_if6 index, s.accepts (unicast_if6 index))

abbrev is_nil : Option Bool → Bool
is_nil none = Bool.true
is_nil (some b) = Bool.false

-- Both calls are made, and the error is that of the second.
unfoldable pub bind_both : Call × Option String → Call × Option String → List Call × Option String
bind_both (c, e) (d, f) = (c ∷ d ∷ [], f)

abbrev bind_one : Call × Option String → List Call × Option String
bind_one (c, e) = (c ∷ [], e)

-- `uint32(opts.InterfaceIndex)` is taken first.
unfoldable pub bind : System → String → Option Bool → ℕ → List Call × Option String
unfolding bind_socket_to_interface4 bind_socket_to_interface6 bind_both
bind s network ip index =
    if str_eq network "tcp4" || str_eq network "udp4"
    then bind_one (bind_socket_to_interface4 s (index % 2 ^ 32))
    else if str_eq network "tcp6" || str_eq network "udp6"
    then (if str_eq network "udp6" && is_nil ip
        then bind_both (bind_socket_to_interface6 s (index % 2 ^ 32))
            (bind_socket_to_interface4 s (index % 2 ^ 32))
        else bind_one (bind_socket_to_interface6 s (index % 2 ^ 32)))
    else ([], none)

unfoldable pub set_socket_options : System → String → String → Options → List Call × Option String
unfolding bind guarded index_of
set_socket_options s network address o =
    guarded s network address
      (if index_of s o == 0 then ([], none) else bind s network (s.global address) (index_of s o))
