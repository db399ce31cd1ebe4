-- ===== src/Wire/Request.antt =====
-- From the handshake's headers to the server's request, through Cloudflare's edge.
use cftun.Common.{ℕ, ◌≡◌, ◌∙◌, String, Option, none, some, List}
use cftun.Client.Metadata.{AddrPort, destination_address, network_string}
use cftun.Client.Metadata as Flow
use cftun.Client.Argo.Websocket.{Params, Header, get_header, header, new_websocket}
use cftun.Client.Argo.Websocket.Destination.{get_header-header}
use cftun.Server.Stream.Request.{Metadata, ConnectRequest, first_value, network, address}
use cftun.Client.Config.{Config, Tunnel, new_websocket as new_forwarded}
use cftun.Client.Config.Defaults.{get_header-new_websocket as get_header-new_forwarded}

-- What the edge is relied on for: the values of the two headers that name a destination are found in
-- the request, under their keys with the prefix of HTTP headers, and each is absent where the
-- handshake does not have it. Nothing is asked of the other headers, of which the edge adds some.
pub record Edge : Type 0 where
  pub forward : Header → List Metadata
  pub forwards_proto :
      (h : Header)
      → first_value "HttpHeader:Forward-Proto" (forward h) ≡ get_header "Forward-Proto" h
  pub forwards_dest :
      (h : Header) → first_value "HttpHeader:Forward-Dest" (forward h) ≡ get_header "Forward-Dest" h

module _ (edge : Edge) (to_string : AddrPort → String) (unknown : ℕ → String) (itoa : ℕ → String)
    (params : Params) where
  -- The request that the server sees for a handshake.
  abbrev pub request_for : Option Flow.Metadata → ConnectRequest
  request_for m = record {
    dest = "";
    conn_type = 1;
    metadata = edge.forward (header to_string unknown m (new_websocket itoa params));
  }

  -- Where the edge passes on the two headers of a destination: the server finds the flow's protocol and destination in a request whose handshake named them,
  -- and neither of them in a request from the pool, so that it goes on to read the header bytes.
  pub request_destination :
      (m : Flow.Metadata)
      → (network (request_for (some m)) ≡ network_string unknown m.network)
        × (address (request_for (some m)) ≡ destination_address to_string m)
        × (network (request_for none) ≡ "")
        × (address (request_for none) ≡ "")
  unfolding network address
  request_destination m =
      let h = get_header-header to_string unknown itoa params m in
      (
        edge.forwards_proto _ ∙ h.1,
        edge.forwards_dest _ ∙ h.0,
        edge.forwards_proto _ ∙ h.4,
        edge.forwards_dest _ ∙ h.3,
      )

-- The request that the server sees for a tunnel of client/websocket.go names the tunnel's protocol
-- and its remote address.
pub forwarded_request :
    (edge : Edge) (split_host : String → String) (c : Config) (tunnel : Tunnel)
    → let request : ConnectRequest = record {
      dest = "";
      conn_type = 1;
      metadata = edge.forward (new_forwarded split_host c tunnel).headers;
    } in
      (network request ≡ tunnel.protocol) × (address request ≡ tunnel.remote)
unfolding network address
forwarded_request edge split_host c tunnel =
    let h = get_header-new_forwarded split_host c tunnel in
    (edge.forwards_proto _ ∙ h.0, edge.forwards_dest _ ∙ h.1)
