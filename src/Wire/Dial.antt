-- ===== src/Wire/Dial.antt =====
-- From a call of `Dial` on the client, whatever became of its pool, to what the server learns of the
-- destination.
use cftun.Common.{
  ℕ, ◌≤◌, ◌≡◌, refl, ap, Bool, true, false, none, some, String, List, ◌∷◌, Bytes, length, ok,
  le→ltb_false,
}
use cftun.Client.Metadata as Flow
use cftun.Client.Metadata.{AddrPort, destination_address, network_string, IsFlow}
use cftun.Client.Argo.Websocket.{Params}
use cftun.Client.Argo.Header.{IoResult, write_all}
use cftun.Client.Argo.Pool.{Pool, Link, answered, Step, dial_take, dial_connect, Reach, new_pool}
use cftun.Client.Argo.Pool.Closing.{dial-Names}
use cftun.Client.Argo.Dial.{dial, messages, with_header}
use cftun.Server.Packet.{decode}
use cftun.Server.Stream.Request.{ConnectRequest, network, address}
use cftun.Wire.{encode}
use cftun.Wire.Decoding.{decode-encode}
use cftun.Wire.Encoding.{packet_of, IsSized-packet_of, write_all-encode}
use cftun.Wire.Request.{Edge, request_for, request_destination}

-- The step is one of a call for this flow: where it makes a connection, it is for the flow.
unfoldable pub IsFor :
    {s t : Pool} {c : Link} {sent : Bool}
    → Flow.Metadata
    → Step s (some (answered c sent)) t
    → Type 0
IsFor m (dial_take c rest e) = Unit
IsFor m (dial_connect k h e) = k ≡ m

-- How the server learns the destination: from the request, and the payloads follow as they are, or
-- from the first message, where the request names none.
pub data Learns (to_string : AddrPort → String) (unknown : ℕ → String) (m : Flow.Metadata)
    (p : Bytes) (ps : List Bytes) (r : ConnectRequest) (sent : List Bytes) : Type 0 where
  from_request :
      network r ≡ network_string unknown m.network
      → address r ≡ destination_address to_string m
      → sent ≡ p ∷ ps
      → Learns to_string unknown m p ps r sent
  from_header :
      (first : Bytes)
      → network r ≡ ""
      → address r ≡ ""
      → sent ≡ first ∷ ps
      → decode first ≡ ok (packet_of m p)
      → Learns to_string unknown m p ps r sent

module _ (edge : Edge) (to_string : AddrPort → String) (unknown : ℕ → String) (itoa : ℕ → String)
    (params : Params) (below : Bytes → IoResult) (m : Flow.Metadata) (p : Bytes)
    (ps : List Bytes) where
  -- What comes of a connection whose handshake named this much.
  abbrev pub Reaches : Link → Bool → Type 0
  Reaches c sent =
      (l : Link) × (out : List Bytes) × (messages below (p ∷ ps) (dial m (answered c sent))
        ≡ some (l, out))
      × Learns to_string unknown m p ps
          (request_for edge to_string unknown itoa params l.opened_for) out

  pooled-Reaches : IsFlow m → 2 ≤ length p → (c : Link) → c.opened_for ≡ none → Reaches c false
  unfolding dial messages
  pooled-Reaches flow two c plain =
      let (w, made, out) = write_all-encode below m p ps flow in
      let named = request_destination edge to_string unknown itoa params m in
      let decodes : decode (encode (packet_of m p)) ≡ ok (packet_of m p) =
        rw (le→ltb_false (length p) 2 two) at
          (decode-encode (packet_of m p) flow.port (IsSized-packet_of m p flow)) in
      (
        c,
        (write_all below w (p ∷ ps)).sent,
        rw (made, with_header),
        rw plain (from_header (encode (packet_of m p)) named.2 named.3 out decodes),
      )

  named-Reaches : (c : Link) → c.opened_for ≡ some m → Reaches c true
  unfolding dial messages
  named-Reaches c e =
      let named = request_destination edge to_string unknown itoa params m in
      (c, p ∷ ps, refl, rw e (from_request named.0 named.1 refl))

  -- A flow is dialed, whatever happened to the pool before, its first payload has two bytes or
  -- more, and the edge passes on the two headers of a destination. Then the call does not panic, and the
  -- server learns the flow's protocol and destination either from the request, and then the
  -- payloads come as they are written; or, where the request names neither, from the first message,
  -- which decodes to them with the first payload, and then the other payloads come as they are
  -- written.
  pub dial-Reaches :
      {size : ℕ} {s t : Pool} {c : Link} {sent : Bool}
      → IsFlow m
      → 2 ≤ length p
      → Reach (new_pool size) s
      → (step : Step s (some (answered c sent)) t) → IsFor m step
      → Reaches c sent
  unfolding IsFor
  dial-Reaches flow two r (dial_take c rest e) own =
      pooled-Reaches flow two c (dial-Names r (dial_take c rest e))
  dial-Reaches flow two r (dial_connect k h e) own =
      named-Reaches (record { opened_for = some k }) (ap some own)
