-- ===== src/Client/Argo/Websocket/Destination.antt =====
-- The headers of a handshake, with and without a destination.
use cftun.Common.{ℕ, ◌≡◌, refl, String, none, some}
use cftun.Common.Text.{before}
use cftun.Client.Metadata.{Metadata, AddrPort, destination_address, network_string}
use cftun.Client.Argo.Websocket.{Params, get_header, set_header, header, new_websocket}

module _ (to_string : AddrPort → String) (unknown : ℕ → String) (itoa : ℕ → String)
    (params : Params) where
  -- A handshake for a flow names the flow's destination and protocol; one for the pool has neither
  -- header. Both name the host of the configured URL.
  pub get_header-header :
      (m : Metadata)
      → let w = new_websocket itoa params in
        let named = header to_string unknown (some m) w in
        let plain = header to_string unknown none w in
        (get_header "Forward-Dest" named ≡ destination_address to_string m)
        × (get_header "Forward-Proto" named ≡ network_string unknown m.network)
        × (get_header "Host" named ≡ before b'/' params.url)
        × (get_header "Forward-Dest" plain ≡ "")
        × (get_header "Forward-Proto" plain ≡ "")
        × (get_header "Host" plain ≡ before b'/' params.url)
  unfolding get_header header set_header new_websocket
  get_header-header m = (refl, refl, refl, refl, refl, refl)
