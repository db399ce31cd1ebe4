-- ===== src/Client/Dialer/Dial.antt =====
-- client/tun/dialer/dialer.go: the dials and the listener, with the package's defaults. Package net
-- is a parameter, which is given the function that sets the options of a socket.
use cftun.Common.{ℕ, Option, String, List}
use cftun.Client.Dialer.{Options, Call}

-- DefaultInterfaceName, DefaultInterfaceIndex and DefaultRoutingMark.
pub record Defaults : Type 0 where
  pub default_interface_name : String
  pub default_interface_index : ℕ
  pub default_routing_mark : ℕ

-- What is handed to package net as `Control`.
abbrev pub Control : Type 0
Control = String → String → List Call × Option String

unfoldable pub default_options : Defaults → Options
default_options d = record {
  interface_name = d.default_interface_name;
  interface_index = d.default_interface_index;
  routing_mark = d.default_routing_mark;
}

-- `set` is the system's `setSocketOptions`, and `net` does what package net does.
module _ {R : Type 0} (set : String → String → Options → List Call × Option String)
    (net : Control → String → String → R) where
  unfoldable pub dial_with_options : String → String → Options → R
  dial_with_options network address opts = net (λ n a. set n a opts) network address

  unfoldable pub dial : Defaults → String → String → R
  unfolding dial_with_options default_options
  dial d network address = dial_with_options network address (default_options d)

  unfoldable pub dial_context_with_options : String → String → Options → R
  dial_context_with_options network address opts = net (λ n a. set n a opts) network address

  unfoldable pub dial_context : Defaults → String → String → R
  unfolding dial_context_with_options default_options
  dial_context d network address = dial_context_with_options network address (default_options d)

  unfoldable pub listen_packet_with_options : String → String → Options → R
  listen_packet_with_options network address opts = net (λ n a. set n a opts) network address

  unfoldable pub listen_packet : Defaults → String → String → R
  unfolding listen_packet_with_options default_options
  listen_packet d network address = listen_packet_with_options network address (default_options d)
