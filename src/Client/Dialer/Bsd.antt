-- ===== src/Client/Dialer/Bsd.antt =====
-- client/tun/dialer/sockopt_freebsd.go, sockopt_openbsd.go and sockopt_others.go. The interface is
-- not set there.
use cftun.Common.{ℕ, ◌≡◌, ap, ◌==◌, if◌then◌else◌, Option, none, String, List, [], ◌∷◌}
use cftun.Client.Dialer.{Options, Call, so_user_cookie, so_rtable, System, attempt, guarded}

pub data Bsd : Type 0 where
  freebsd openbsd : Bsd

unfoldable pub mark : Bsd → ℕ → Call
mark freebsd n = so_user_cookie n
mark openbsd n = so_rtable n

unfoldable pub calls : Bsd → Options → List Call
unfolding mark
calls bsd o = if o.routing_mark == 0 then [] else mark bsd o.routing_mark ∷ []

unfoldable pub set_socket_options :
    Bsd → System → String → String → Options → List Call × Option String
unfolding calls attempt guarded
set_socket_options bsd s network address o = guarded s network address (attempt s (calls bsd o))

unfoldable pub set_nothing : String → String → Options → List Call × Option String
set_nothing network address o = ([], none)

calls-mark :
    (bsd : Bsd) (o o' : Options) → o.routing_mark ≡ o'.routing_mark → calls bsd o ≡ calls bsd o'
unfolding calls
calls-mark bsd o o' e = ap (λ (n : ℕ). if n == 0 then [] else mark bsd n ∷ []) e

-- Two sets of options with the same mark make the same calls, whatever their interfaces are.
pub set_socket_options-mark :
    (bsd : Bsd) (s : System) (network address : String) (o o' : Options)
    → o.routing_mark ≡ o'.routing_mark
    → set_socket_options bsd s network address o ≡ set_socket_options bsd s network address o'
unfolding set_socket_options
set_socket_options-mark bsd s network address o o' e =
    ap (λ (cs : List Call). guarded s network address (attempt s cs)) (calls-mark bsd o o' e)
