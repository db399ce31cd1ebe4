-- ===== src/Main/Tests.antt =====
-- Runs of the whole program.
use cftun.Common.{◌≡◌, refl, true, false, Option, none, some, String, List, [], ◌∷◌, ok}
use cftun.Common.Int.{ℤ, pos}
use cftun.Client.Route.{Command}
use cftun.Client.Engine.{
  Event, set_argo, set_relay_buffer_size, set_logger, set_interface, start_process, set_device,
  create_stack, open_tun, Outside,
}
use cftun.Client.Tun.{Tun, configure_tun}
use cftun.Main as Main
use cftun.Main.Ending.{undo_all, main-undo_all}
use cftun.Server.Start.{Config}

-- A device without a name or an MTU.
abbrev tun : Tun
tun = record {
  enable = true;
  name = "";
  interface_name = "eth0";
  log_level = "info";
  routes = [];
  ex_routes = [];
  ipv4 = "";
  ipv6 = "";
  mtu = pos 0;
}

abbrev flags : Main.Flags
flags = record {
  config_file = "";
  token = "";
  is_quick = false;
  proxy4 = false;
  proxy6 = false;
  port = pos 51280;
  show_version = false;
}

abbrev quick_server : Config
quick_server = record {
  edge_ips = [];
  token = "quick";
  ha_conn = pos 1;
  bind_address = "";
  warp = none;
}

abbrev raw : Main.RawConfig
raw = record {
  server = some quick_server;
  client = some (record {
    config = record {
      cdn_ip = "";
      cdn_port = 0;
      pool_size = 0;
      global_url = "";
      scheme = "";
      tunnels = [];
      enable = some true;
    };
    tun = some tun;
  });
}

abbrev outside : Main.Outside
outside = record {
  default_path = "/config.json";
  read_file = λ path. ok (1 ∷ []);
  unmarshal = λ buf. ok raw;
}

waits_for_signal : Main.main outside flags ≡ Main.waits (Main.from_file raw)
unfolding Main.main
waits_for_signal = refl

main-undo_all_example :
    Main.on_signal (Main.from_file raw) ≡ undo_all ((Main.from_file raw).started)
main-undo_all_example = main-undo_all outside flags (Main.from_file raw) waits_for_signal

both_undone :
    undo_all ((Main.from_file raw).started)
    ≡ Main.save_quick_data ∷ Main.delete_tun_device "cftun0" ∷ []
unfolding undo_all Main.from_file
both_undone = refl

-- A system that opens every device.
abbrev system : Outside
system = record {
  goos = "linux";
  level = λ l. none;
  interface' = λ name. ok (name, 2);
  parse_url = λ s. ok (record { scheme = "tun"; host = "cftun0" });
  to_lower = λ s. s;
  atoi = λ s. none;
  open' = λ d. none;
  stack = none;
}

abbrev named : Tun
named = record tun { name = "cftun0"; routes = "0.0.0.0/0" ∷ [] }

no_metric : String → Option ℤ
no_metric s = none

silent : Command → Option String
silent c = none

-- The start binds sockets to eth0 and opens the device with an MTU of 1280.
abbrev events : List Event
events =
    set_argo
    ∷ set_relay_buffer_size (pos 1280)
    ∷ set_logger "info"
    ∷ set_interface "eth0" 2
    ∷ start_process
    ∷ set_device (open_tun "cftun0" 1280)
    ∷ create_stack
    ∷ []

abbrev commands : List Command
commands =
    configure_tun no_metric silent "linux" "cftun0" "198.18.0.1" "fd12:3456:789a::1"
      ("0.0.0.0/0" ∷ []) []
