-- ===== src/Wire/Session.antt =====
-- A pooled connection from the client's writes to the origin.
use mathlib.Core.List.{map}
use cftun.Common.{
  ℕ, ◌≤◌, ◌≡◌, ap, ◌∙◌, true, some, String, List, ◌∷◌, Bytes, All, length, take, arith, Result, ok,
  take-eq_self, le→ltb_false,
}
use cftun.Client.Metadata.{Metadata, IsFlow}
use cftun.Client.Argo.Header.{ArgoConn, IoResult, parse_header, write_all, new_conn}
use cftun.Server.Packet.{Packet, decode, protocol, address}
use cftun.Server.Proxy.{DialError}
use cftun.Server.Websocket.{Conn, read}
use cftun.Server.Connection.{Round, forward}
use cftun.Server.Connection.Upload.{IsSmooth, forward-take}
use cftun.Server.Connection.Handler.{
  served, dial, handle_packet, handle_first, handle_conn, handle_accepted,
}
use cftun.Wire.{encode}
use cftun.Wire.Decoding.{decode-encode}
use cftun.Wire.Encoding.{packet_of, IsSized-packet_of, write_all-encode}

module _ {C : Type 0} (ip_string : Bytes → String) (itoa : ℕ → String)
    (attempt : String → String → ℕ → Result DialError C) where
  -- The branch of the first packet, where the origin can be dialed and takes every write.
  packet_served :
      (size : ℕ) (first : Round) (rounds : List Round) (p : Packet) (ws : Conn) (c : C)
      → IsSmooth first
      → dial ip_string itoa attempt (protocol p) (address ip_string itoa p) ≡ some c
      → handle_packet ip_string itoa attempt size first rounds p ws ≡ record {
        dialed = some (protocol p, address ip_string itoa p);
        writes = p.payload ∷ forward size rounds ws;
        relayed = true;
      }
  unfolding handle_packet
  packet_served size first rounds p ws c s h = ground (arith, h, s.whole (length p.payload))

  -- What the server does with the messages of a connection whose request named no destination.
  first_served :
      (size : ℕ) (first : Round) (rounds : List Round) (p : Packet) (more : List Bytes) (ws : Conn)
      → length (encode p) ≤ size
      → decode (encode p) ≡ ok p
      → handle_first ip_string itoa attempt size first rounds
          (record ws { inbox = encode p ∷ more })
        ≡ handle_packet ip_string itoa attempt size first rounds p (record ws { inbox = more })
  unfolding handle_first read
  first_served size first rounds p more ws fits d =
      rw (take-eq_self size (encode p) fits, d, handle_first)

  -- The client writes payloads to a connection from the pool, for a flow, and the server's request
  -- names no destination. The first payload has two bytes or more and fits the server's buffer with
  -- its header; the flow's destination can be dialed within the retries; the origin takes every
  -- write whole, the context is not done, and the server runs a round for each payload. Then the
  -- server dials the flow's protocol and destination, and writes to the origin the first payload
  -- whole and each later one cut to the size of the buffer.
  pub session :
      (below : Bytes → IoResult) (m : Metadata) (p : Bytes) (ps : List Bytes) (size : ℕ)
      (first : Round) (rounds : List Round) (ws : Conn) (c : C)
      → IsFlow m
      → 2 ≤ length p
      → length (encode (packet_of m p)) ≤ size
      → IsSmooth first
      → All IsSmooth rounds
      → length ps ≤ length rounds
      → dial ip_string itoa attempt
          (protocol (packet_of m p))
          (address ip_string itoa (packet_of m p))
        ≡ some c
      → (w : ArgoConn) × (parse_header m new_conn ≡ some w)
        × (handle_accepted ip_string itoa attempt size
              (ok ("", ""))
              first
              rounds
              (record ws { inbox = (write_all below w (p ∷ ps)).sent })
            ≡ served (record {
              dialed = some (protocol (packet_of m p), address ip_string itoa (packet_of m p));
              writes = p ∷ map (take size) ps;
              relayed = true;
            }))
  unfolding handle_accepted handle_conn
  session below m p ps size first rounds ws c flow two fits s ss enough h =
      let (w, made, sent) = write_all-encode below m p ps flow in
      let k : Packet = packet_of m p in
      let decodes : decode (encode k) ≡ ok k =
        rw (le→ltb_false (length p) 2 two) at
          (decode-encode k flow.port (IsSized-packet_of m p flow)) in
      (
        w,
        made,
        ap served (
            rw sent (
              first_served size first rounds k ps ws fits decodes
              ∙ packet_served size first rounds k (record ws { inbox = ps }) c s h
              ∙ rw (forward-take size rounds (record ws { inbox = ps }) ss enough))),
      )
