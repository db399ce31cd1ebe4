-- ===== src/Client/Dialer/Darwin.antt =====
-- client/tun/dialer/sockopt_darwin.go.
use cftun.Common.{ℕ, ◌||◌, ◌==◌, if◌then◌else◌, str_eq, Option, String, List, [], ◌∷◌}
use cftun.Client.Dialer.{Options, Call, bound_if4, bound_if6, System, attempt, guarded, index_of}

unfoldable pub calls : String → ℕ → List Call
calls network index =
    if index == 0
    then []
    else if str_eq network "tcp4" || str_eq network "udp4"
    then bound_if4 index ∷ []
    else if str_eq network "tcp6" || str_eq network "udp6"
    then bound_if6 index ∷ []
    else []

unfoldable pub set_socket_options : System → String → String → Options → List Call × Option String
unfolding calls attempt guarded index_of
set_socket_options s network address o =
    guarded s network address (attempt s (calls network (index_of s o)))
