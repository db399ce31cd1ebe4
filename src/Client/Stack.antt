-- ===== src/Client/Stack.antt =====
-- client/tun/core: how the network stack is set up. gVisor's stack is a parameter: the error that
-- it returns to a call, by the calls made before. An option is a function on the calls made so far.
pub mod Options
pub mod Nic
pub mod Forwarders
pub mod Create
pub mod Plan
pub mod Steps
pub mod Outcome
pub mod Order
pub mod Requests
pub mod Tests
use mathlib.Core.Option
use cftun.Common.Text.{◌<>◌}
use cftun.Common.{ℕ, Bool, Option, none, some, String, List, [], ◌∷◌, ◌++◌, Bytes}

-- Network and transport protocols, by gVisor's names.
pub data Network : Type 0 where
  ipv4 ipv6 : Network

pub data Transport : Type 0 where
  tcp udp : Transport

-- The options of the TCP protocol that are set.
pub data TcpOption : Type 0 where
  send_buffer_range receive_buffer_range : ℕ → ℕ → ℕ → TcpOption
  congestion_control : String → TcpOption
  delay moderate_receive_buffer sack : Bool → TcpOption
  recovery : ℕ → TcpOption

-- The calls on a `*stack.Stack`.
pub data Call : Type 0 where
  set_default_ttl : Network → ℕ → Call
  set_forwarding : Network → Bool → Call
  set_icmp_burst set_icmp_limit : ℕ → Call
  set_tcp_option : TcpOption → Call
  set_handler : Transport → Call
  create_nic : ℕ → Call
  set_promiscuous_mode set_spoofing : ℕ → Bool → Call
  set_route_table : List (Network × ℕ) → Call
  add_protocol_address : ℕ → Network → Bytes → ℕ → Call
  join_group : Network → ℕ → Bytes → Call

-- The text of the error that the stack returns to a call after others, or none where it is nil.
abbrev pub Replies : Type 0
Replies = List Call → Call → Option String

-- An `option.Option`: the calls made with the error that it returns.
abbrev pub Action : Type 0
Action = Replies → List Call → List Call × Option String

-- A call whose result is not looked at.
unfoldable pub sure : Call → Action
sure c replies calls = (calls ++ c ∷ [], none)

-- A call whose error is returned under a message, `fmt.Errorf("message: %s", err)`.
unfoldable pub attempt : Call → String → Action
attempt c message replies calls =
    (calls ++ c ∷ [], Option.map (λ err. message <> ": " <> err) (replies calls c))

-- What follows where no error is returned before: `proceed` on what the first part has done.
unfoldable pub proceed : Action → Replies → List Call × Option String → List Call × Option String
proceed b replies (calls, none) = b replies calls
proceed b replies (calls, some message) = (calls, some message)

unfoldable pub and_then : Action → Action → Action
unfolding proceed
and_then a b replies calls = proceed b replies (a replies calls)

unfoldable pub nothing : Action
nothing replies calls = (calls, none)

-- `for _, opt := range opts { if err := opt(s); err != nil { return err } }`
unfoldable pub each : List Action → Action
each [] = nothing
each (a ∷ rest) = and_then a (each rest)
