-- ===== src/Client/Dialer/Linux.antt =====
-- client/tun/dialer/sockopt_linux.go.
use cftun.Common.{not, ◌&&◌, ◌==◌, if◌then◌else◌, Option, none, some, String, List, [], ◌∷◌, ◌++◌}
use cftun.Common.Text.{is_empty}
use cftun.Client.Dialer.{Options, Call, bind_to_device, so_mark, System, attempt, guarded}

unfoldable pub name_of : System → Options → String
name_of s o =
    if is_empty o.interface_name && not (o.interface_index == 0)
    then (elim (s.by_index o.interface_index) [ none ↦ "" | some name ↦ name ])
    else o.interface_name

unfoldable pub calls : System → Options → List Call
unfolding name_of
calls s o =
    (if not (is_empty (name_of s o)) then bind_to_device (name_of s o) ∷ [] else [])
    ++ (if not (o.routing_mark == 0) then so_mark o.routing_mark ∷ [] else [])

unfoldable pub set_socket_options : System → String → String → Options → List Call × Option String
unfolding calls attempt guarded
set_socket_options s network address o = guarded s network address (attempt s (calls s o))
