-- ===== src/Client/Endpoint.antt =====
-- client/tun/core/device/iobased/endpoint.go: packets between a device and the network stack. The
-- device and the stack are parameters: what each read answers, and whether a dispatcher is
-- attached.
pub mod Loop
pub mod Packets
mod Tests
use cftun.Common.{
  ◌≡◌, ℕ, ◌+◌, ◌/◌, Bool, true, false, not, ◌||◌, Option, none, some, List, [], ◌∷◌, ◌++◌, Bytes,
  length, take, drop, replicate, get_or, ltb, ◌==◌, if◌then◌else◌, Result, ok, err,
}

pub record Endpoint : Type 0 where
  pub mtu : ℕ
  pub offset : ℕ

pub data EndpointError : Type 0 where
  mtu_is_zero rw_is_nil : EndpointError

-- `New`; an offset is not negative.
unfoldable pub new_endpoint : Bool → ℕ → ℕ → Result EndpointError Endpoint
new_endpoint rw_is_set mtu offset =
    if mtu == 0
    then err mtu_is_zero
    else if rw_is_set
    then ok (record { mtu = mtu; offset = offset })
    else err rw_is_nil

-- A read: the count that it returns, or an error, what the buffer of `offset + mtu` bytes then
-- holds, and whether a dispatcher is attached.
pub record Reading : Type 0 where
  pub n : Option ℕ
  pub buf : Bytes
  pub attached : Bool

pub data Protocol : Type 0 where
  ipv4 ipv6 : Protocol

-- `header.IPVersion`: the high half of the first byte.
unfoldable pub version_of : Bytes → Option Protocol
version_of packet =
    let version = get_or packet 0 0 / 16 in
    if version == 4 then some ipv4 else if version == 6 then some ipv6 else none

-- The body of the loop behind the read: the packet that is injected, if one is.
unfoldable pub inject : Endpoint → ℕ → Reading → List (Protocol × Bytes)
unfolding version_of
inject e n r =
    if n == 0 || ltb e.mtu n || not r.attached
    then []
    else elim (version_of (drop e.offset r.buf)) [
      | none ↦ []
      | some p ↦ (p, take n (drop e.offset r.buf)) ∷ []
    ]

-- The packets that `dispatchLoop` injects, and whether it has ended and cancelled `outboundLoop`.
unfoldable pub dispatch_loop : Endpoint → List Reading → List (Protocol × Bytes) × Bool
dispatch_loop e [] = ([], false)
dispatch_loop e (r ∷ rest) = elim r.n [
  | none ↦ ([], true)
  | some n ↦ let (more, ended) = dispatch_loop e rest in (inject e n r ++ more, ended)
]

-- The bytes that `writePacket` writes to the device.
unfoldable pub write_packet : Endpoint → Bytes → Bytes
write_packet e packet = if not (e.offset == 0) then replicate e.offset 0 ++ packet else packet

-- The writes of `outboundLoop`, over what `ReadContext` answers: a packet, or nothing once the
-- context is cancelled. Whether a write succeeds is not looked at.
unfoldable pub outbound_loop : Endpoint → List (Option Bytes) → List Bytes
unfolding write_packet
outbound_loop e [] = []
outbound_loop e (none ∷ rest) = []
outbound_loop e (some packet ∷ rest) = write_packet e packet ∷ outbound_loop e rest

-- The goroutines of an endpoint: `once`, and which of the two loops run.
pub record Loops : Type 0 where
  pub once : Bool
  pub outbound : Bool
  pub dispatching : Bool
  pub cancelled : Bool

abbrev pub new_loops : Loops
new_loops = record { once = false; outbound = false; dispatching = false; cancelled = false }

-- `Attach`; `wait` is whether `Wait` returns.
unfoldable pub attach : Loops → Loops
attach l = if l.once then l else record l { once = true; outbound = true; dispatching = true }

unfoldable pub waits : Loops → Bool
waits l = not (l.outbound || l.dispatching)

-- The loops end one after the other: `dispatchLoop` at an error of the device, and `outboundLoop`
-- by the context that `dispatchLoop` then cancels.
pub data LoopStep (l : Loops) : Loops → Type 0 where
  attached : LoopStep l (attach l)
  dispatch_ends :
      l.dispatching ≡ true → LoopStep l (record l { dispatching = false; cancelled = true })
  outbound_ends :
      l.outbound ≡ true → l.cancelled ≡ true → LoopStep l (record l { outbound = false })
