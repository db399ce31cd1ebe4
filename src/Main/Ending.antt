-- ===== src/Main/Ending.antt =====
-- What is undone at the end is what was done at the start.
use mathlib.Core.Path.{subst}
use cftun.Common.{
  ◌≡◌, refl, ap, not, Bool-cases, ◌||◌, if◌then◌else◌, str_eq, Option, none, some, String, List, [],
  ◌∷◌, ◌++◌, append-nil, Result, ok, err, inl, inr,
}
use cftun.Common.Text.{is_empty}
use cftun.Client.Tun.{Tun}
use cftun.Server.Start.{Config}
use cftun.Main.{
  ClientConfig, RawConfig, Flags, Outside, Event, run_client, run_server, save_quick_data,
  delete_tun_device, Waiting, parse_config, server_of, command_line, name_tun, start_client,
  start_server, from_file, waits, configured, main, on_signal,
}

-- What a started part leaves behind: a quick tunnel its data, and a client with a device the
-- device.
unfoldable pub undo_tun : Option Tun → List Event
undo_tun none = []
undo_tun (some t) = if t.enable then delete_tun_device t.name ∷ [] else []

unfoldable pub undo : Event → List Event
unfolding undo_tun
undo (run_client c) = undo_tun c.tun
undo (run_server s) = if str_eq s.token "quick" then save_quick_data ∷ [] else []
undo e = []

-- The last start is undone first.
unfoldable pub undo_all : List Event → List Event
unfolding undo
undo_all [] = []
undo_all (e ∷ es) = undo_all es ++ undo e

deletes : String → List Event
deletes name = if not (is_empty name) then delete_tun_device name ∷ [] else []

name_tun-undo : (t : Option Tun) → deletes ((name_tun t).1) ≡ undo_tun ((name_tun t).0)
unfolding name_tun undo_tun deletes
name_tun-undo none = refl
name_tun-undo (some t) = elim (Bool-cases t.enable) [
  | inr f ↦ rw f refl
  | inl e ↦ elim (Bool-cases (is_empty t.name)) [
    | inl blank ↦ rw (e, blank) refl
    | inr named ↦ rw (e, named) (rw named refl)
  ]
]

command_line-undo : (f : Flags) → on_signal (command_line f) ≡ undo_all ((command_line f).started)
unfolding command_line on_signal undo_all undo server_of
command_line-undo f = elim (Bool-cases f.is_quick) [
  | inl q ↦ rw q refl
  | inr n ↦ rw n (append-nil _)
]

from_file-undo : (raw : RawConfig) → on_signal (from_file raw) ≡ undo_all ((from_file raw).started)
unfolding from_file on_signal undo_all undo start_client start_server deletes
from_file-undo raw = parts raw.client raw.server
  where
    parts :
        (c : Option ClientConfig) (s : Option Config)
        → on_signal (from_file (record { server = s; client = c }))
          ≡ undo_all ((from_file (record { server = s; client = c })).started)
    parts none none = refl
    parts none (some s) = append-nil (undo (run_server s))
    parts (some c) none = name_tun-undo c.tun
    parts (some c) (some s) =
        ap (λ (v : List Event). undo (run_server s) ++ v) (name_tun-undo c.tun)

-- Where main waits: on a signal it saves the quick data exactly where the server that it started
-- has the token "quick", and then deletes exactly the TUN device of the client that it started,
-- under the name that this client was given, where the device is enabled; in either mode.
pub main-undo_all :
    (o : Outside) (f : Flags) (w : Waiting) → main o f ≡ waits w → on_signal w ≡ undo_all w.started
unfolding main configured
main-undo_all o f w h = elim (Bool-cases f.show_version) [
  | inl v ↦ cc
  | inr v ↦ elim (Bool-cases (not (is_empty f.token) || f.is_quick)) [
    | inl c ↦
        let e : command_line f ≡ w = cc in
        subst (λ v. on_signal v ≡ undo_all v.started) e (command_line-undo f)
    | inr c ↦ from_config (parse_config o f.config_file) cc
  ]
]
  where
    from_config :
        (r : Result String RawConfig) → configured r ≡ waits w → on_signal w ≡ undo_all w.started
    from_config (err e) k = cc
    from_config (ok raw) k =
        let e : from_file raw ≡ w = cc in
        subst (λ v. on_signal v ≡ undo_all v.started) e (from_file-undo raw)
