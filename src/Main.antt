-- ===== src/Main.antt =====
-- main.go: what the program starts, and what it does when it is told to end. The flags, the file
-- and the decoder of JSON are parameters; `Client.Config.run` and `Server.Start.run` are what the
-- two starts do.
pub mod Ending
mod Tests
use cftun.Common.{
  ℕ, ◌≡◌, refl, Bool, true, false, not, ◌||◌, if◌then◌else◌, str_eq, Option, none, some, String,
  List, [], ◌∷◌, ◌++◌, Bytes, Result, ok, err,
}
use cftun.Common.Int.{ℤ, pos, wrap}
use cftun.Common.Text.{◌<>◌, is_empty}
use cftun.Client.Config as Client
use cftun.Client.Tun.{Tun}
use cftun.Server.Warp.{Warp}
use cftun.Server.Start.{Config}

-- A client configuration: its `Tun` field stands beside the others, of which `enable` is its flag.
pub record ClientConfig : Type 0 where
  pub config : Client.Config
  pub tun : Option Tun

pub record RawConfig : Type 0 where
  pub server : Option Config
  pub client : Option ClientConfig

pub record Flags : Type 0 where
  pub config_file : String
  pub token : String
  pub is_quick : Bool
  pub proxy4 : Bool
  pub proxy6 : Bool
  pub port : ℤ
  pub show_version : Bool

-- What the flags are where the command line has none of them.
abbrev default_flags : Flags
default_flags = record {
  config_file = "./config.json";
  token = "";
  is_quick = false;
  proxy4 = false;
  proxy6 = false;
  port = pos 51280;
  show_version = false;
}

-- What is outside: the default path, the file, and `json.Unmarshal`.
pub record Outside : Type 0 where
  pub default_path : String
  pub read_file : String → Result String Bytes
  pub unmarshal : Bytes → Result String RawConfig

pub data Event : Type 0 where
  print_version : Event
  run_client : ClientConfig → Event
  run_server : Config → Event
  save_quick_data : Event
  delete_tun_device : String → Event

-- The program when it waits for a signal: what it has started, and the two variables that matter
-- then.
pub record Waiting : Type 0 where
  pub started : List Event
  pub is_quick : Bool
  pub tun_name : String

unfoldable pub config_path : Outside → String → String
config_path o config_file = if is_empty config_file then o.default_path else config_file

unfoldable pub decode : Outside → String → Result String Bytes → Result String RawConfig
decode o path (err e) = err e
decode o path (ok []) = err ("configuration file " <> path <> " is empty")
decode o path (ok (b ∷ buf)) = o.unmarshal (b ∷ buf)

unfoldable pub parse_config : Outside → String → Result String RawConfig
unfolding config_path decode
parse_config o config_file =
    decode o (config_path o config_file) (o.read_file (config_path o config_file))

-- The fields that the literal leaves out are empty.
unfoldable pub warp_of : Flags → Option Warp
warp_of f =
    if f.proxy4 || f.proxy6
    then some (record {
      auto = true;
      port = wrap 16 f.port;
      endpoint = "";
      ipv4 = "";
      ipv6 = "";
      private_key = "";
      public_key = "";
      reserved = none;
      proxy4 = f.proxy4;
      proxy6 = f.proxy6;
    })
    else none

unfoldable pub server_of : Flags → Config
unfolding warp_of
server_of f = record {
  edge_ips = [];
  token = if f.is_quick then "quick" else f.token;
  ha_conn = pos 4;
  bind_address = "";
  warp = warp_of f;
}

-- The branch of a token or a quick tunnel.
unfoldable pub command_line : Flags → Waiting
unfolding server_of
command_line f = record {
  started = run_server (server_of f) ∷ [];
  is_quick = if f.is_quick then true else str_eq f.token "quick";
  tun_name = "";
}

-- The client, with the name of its device where that is enabled.
unfoldable pub name_tun : Option Tun → Option Tun × String
name_tun none = (none, "")
name_tun (some t) =
    if t.enable
    then (if is_empty t.name
        then (some (record t { name = "cftun0" }), "cftun0")
        else (some t, t.name))
    else (some t, "")

unfoldable pub start_client : Option ClientConfig → List Event × String
unfolding name_tun
start_client none = ([], "")
start_client (some c) =
    let (tun, name) = name_tun c.tun in (run_client (record c { tun = tun }) ∷ [], name)

unfoldable pub start_server : Option Config → List Event × Bool
start_server none = ([], false)
start_server (some s) = (run_server s ∷ [], str_eq s.token "quick")

-- The branch of a configuration file.
unfoldable pub from_file : RawConfig → Waiting
unfolding start_client start_server
from_file raw =
    let (client, name) = start_client raw.client in
    let (server, quick) = start_server raw.server in
    record { started = client ++ server; is_quick = quick; tun_name = name }

-- How `main` goes on: it has printed the version, it calls `log.Fatalln` with these arguments, or
-- it waits.
pub data Outcome : Type 0 where
  printed : Event → Outcome
  fatal : List String → Outcome
  waits : Waiting → Outcome

unfoldable pub configured : Result String RawConfig → Outcome
unfolding from_file
configured (err e) = fatal ("Failed to parse config file: " ∷ e ∷ [])
configured (ok raw) = waits (from_file raw)

unfoldable pub main : Outside → Flags → Outcome
unfolding command_line configured parse_config
main o f =
    if f.show_version
    then printed print_version
    else if not (is_empty f.token) || f.is_quick
    then waits (command_line f)
    else configured (parse_config o f.config_file)

-- What follows the signal.
unfoldable pub on_signal : Waiting → List Event
on_signal w =
    (if w.is_quick then save_quick_data ∷ [] else [])
    ++ (if not (is_empty w.tun_name) then delete_tun_device w.tun_name ∷ [] else [])

-- Without flags the file of the current directory is read, and without any WARP proxy.
main-default_flags :
    (o : Outside)
    → (main o default_flags ≡ configured (parse_config o "./config.json"))
      × (warp_of default_flags ≡ none)
unfolding main warp_of
main-default_flags o = (refl, refl)
