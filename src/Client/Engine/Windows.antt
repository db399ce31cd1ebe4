-- ===== src/Client/Engine/Windows.antt =====
-- client/tun/engine/parse_windows.go. The decoder of the query and the parser of GUIDs are
-- parameters.
use cftun.Common.{ℕ, ◌≡◌, refl, not, if◌then◌else◌, Option, some, String, Result, ok, err}
use cftun.Common.Text.{is_empty}
use cftun.Client.Engine.{Opening, open_tun}

-- `init`
abbrev pub wintun_tunnel_type : String
wintun_tunnel_type = "argotunnel"

module _ {G : Type 0} (decode : String → Result String String)
    (guid_from_string : String → Result String G) where
  -- With the parsed GUID: the driver's `WintunStaticRequestedGUID`, and what is opened.
  unfoldable with_guid : String → ℕ → Option G → Result String G → Option G × Result String Opening
  with_guid host mtu requested (err e) = (requested, err e)
  with_guid host mtu requested (ok guid) = (some guid, ok (open_tun host mtu))

  unfoldable with_options :
      String → ℕ → Option G → Result String String → Option G × Result String Opening
  unfolding with_guid
  with_options host mtu requested (err e) = (requested, err e)
  with_options host mtu requested (ok guid) =
      if not (is_empty guid)
      then with_guid host mtu requested (guid_from_string guid)
      else (requested, ok (open_tun host mtu))

  unfoldable pub parse_tun : String → String → ℕ → Option G → Option G × Result String Opening
  unfolding with_options
  parse_tun host query mtu requested = with_options host mtu requested (decode query)

  -- A device that names no GUID is opened with the GUID that an earlier device has requested.
  pub parse_tun-kept :
      (host query : String) (mtu : ℕ) (requested : Option G)
      → decode query ≡ ok ""
      → parse_tun host query mtu requested ≡ (requested, ok (open_tun host mtu))
  unfolding parse_tun
  parse_tun-kept host query mtu requested e = rw e refl
