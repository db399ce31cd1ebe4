-- ===== src/Client/Stack/Requests.antt =====
-- client/tun/core/tcp.go and client/tun/core/udp.go: every request is finished in the way its
-- handshake went.
use cftun.Common.{
  count, count-append, ℕ, ◌≡◌, refl, ap, sym, Bool, true, false, not, Bool-cases, Option, none,
  some, List, [], ◌∷◌, ◌++◌, append_assoc, inl, inr, if◌then◌else◌, arith,
}
use cftun.Client.Stack.Forwarders.{
  Event, create_endpoint, handle, complete, Answers, set_socket_options, forward_tcp,
}

unfoldable pub is_handle : Event → Bool
is_handle handle = true
is_handle e = false

unfoldable pub is_complete : Event → Bool
is_complete (complete b) = true
is_complete e = false

unfoldable Quiet : Answers → Type 0
Quiet a =
    (count is_handle ((set_socket_options a).0) ≡ 0)
    × (count is_complete ((set_socket_options a).0) ≡ 0)

-- A socket option neither hands the endpoint on nor completes the request.
options-Quiet : (a : Answers) → Quiet a
unfolding Quiet is_handle is_complete set_socket_options
options-Quiet a = go a.created a.idle a.interval a.count a.send_default a.receive_default
  where
    go :
        (created idle interval c : Bool) (s r : Option ℕ)
        → Quiet (record {
          created = created;
          idle = idle;
          interval = interval;
          count = c;
          send_default = s;
          receive_default = r;
        })
    go created false interval c s r = (refl, refl)
    go created true false c s r = (refl, refl)
    go created true true false s r = (refl, refl)
    go created true true true none none = (refl, refl)
    go created true true true none (some n) = (refl, refl)
    go created true true true (some m) none = (refl, refl)
    go created true true true (some m) (some n) = (refl, refl)

-- A TCP request ends with its completion, which is the only one, and a reset is sent exactly where
-- no endpoint was made. The endpoint is handed on once where it was made, before that, and never
-- otherwise: whatever the socket options answer.
pub forward_tcp-complete :
    (a : Answers)
    → (before : List Event) × (forward_tcp a ≡ before ++ complete (not a.created) ∷ [])
      × (count is_complete before ≡ 0)
      × (count is_handle before ≡ (if a.created then 1 else 0))
unfolding Quiet forward_tcp is_handle is_complete set_socket_options
forward_tcp-complete a = elim (Bool-cases a.created) [
  | inl t ↦
      let (h, c) = options-Quiet a in
      rw t (
        create_endpoint ∷ ((set_socket_options a).0 ++ handle ∷ []),
        ap (λ (v : List Event). create_endpoint ∷ v)
            (sym (append_assoc ((set_socket_options a).0) (handle ∷ []) (complete false ∷ []))),
        (let k = count-append is_complete ((set_socket_options a).0) (handle ∷ []) in omega arith),
        (let k = count-append is_handle ((set_socket_options a).0) (handle ∷ []) in omega arith),
      )
  | inr f ↦ rw f (create_endpoint ∷ [], refl, refl, refl)
]
