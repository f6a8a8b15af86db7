-- ===== src/Config/Reboot.antt =====
-- Settings across a reboot: what `save` writes, `begin` reads back.
use spool_gate.Base.{true, false, ◌≡◌, refl, ap, ◌∙◌, Option, none, String, arith}
use spool_gate.Config.Nvs.{Store, Value, is_some, text_or, flag_or, byte_or}
use spool_gate.Config.{
  Settings, Secrets, AddressText, parse_ip, load_from_defaults, save, read_all, begin,
  factory_reset,
}
use spool_gate.Config.Flash.{
  HasAddresses, latest, entries, content-save, get-begin, is_key-begin, Holds, save-Holds,
  read_all-Holds,
}
use mathlib.Core.Path.{fun_ext}

-- The settings that a flash stands for, over the defaults `d`: a key that is missing or holds a value
-- of another type reads as its default, and an address that does not parse as the default address.
pub settings_of : AddressText → Settings → (String → Option Value) → Settings
settings_of ips d f = record {
  uplink_ssid = text_or d.uplink_ssid (f "uSsid");
  uplink_enterprise = flag_or d.uplink_enterprise (f "uEnt");
  uplink_pass = text_or d.uplink_pass (f "uPass");
  eap_identity = text_or d.eap_identity (f "eapId");
  eap_username = text_or d.eap_username (f "eapUser");
  eap_password = text_or d.eap_password (f "eapPass");
  ap_ssid = text_or d.ap_ssid (f "apSsid");
  ap_pass = text_or d.ap_pass (f "apPass");
  ap_ip = parse_ip ips (text_or (ips.to_string d.ap_ip) (f "apIp")) d.ap_ip;
  dns = parse_ip ips (text_or (ips.to_string d.dns) (f "dns")) d.dns;
  led_brightness = byte_or d.led_brightness (f "ledBri");
  admin_user = text_or d.admin_user (f "admUser");
  admin_pass = text_or d.admin_pass (f "admPass");
}

module _ (nvs : Store) (ips : AddressText) where
  open nvs use {State, content}

  -- The store as the first half of `begin` leaves it.
  abbrev probed : State → State
  probed s = nvs.end (nvs.begin false s)

  content-probed : (s : State) (j : String) → content (probed s) j ≡ content s j
  content-probed s j = nvs.content-end (nvs.begin false s) j ∙ nvs.content-begin false s j

  begin-provisioned :
      (m : Secrets) (s : State)
      → is_some (content s "uSsid") ≡ true
      → begin nvs ips m s ≡ (
        read_all nvs ips (load_from_defaults m) (nvs.begin true (probed s)),
        nvs.end (nvs.begin true (probed s)),
      )
  unfolding begin
  begin-provisioned m s p = rw (is_key-begin nvs ips "uSsid" false s ∙ p)

  pub begin-blank :
      (m : Secrets) (s : State)
      → content s "uSsid" ≡ none
      → begin nvs ips m s ≡ (load_from_defaults m, save nvs ips (load_from_defaults m) (probed s))
  unfolding begin
  begin-blank m s p = rw (is_key-begin nvs ips "uSsid" false s ∙ ap is_some p)

  -- `begin` on a store that holds settings.
  pub begin-Holds :
      (m : Secrets) (n : Settings) (s : State)
      → HasAddresses n
      → Holds nvs ips n s
      → ((begin nvs ips m s).0 ≡ n) × ((j : String) → content (begin nvs ips m s).1 j ≡ content s j)
  begin-Holds m n s v h = rw (begin-provisioned m s (ap is_some (h.1 "uSsid"))) (
    read_all-Holds nvs ips n (load_from_defaults m) (probed s) v
        (h.0, λ j. content-probed s j ∙ h.1 j),
    λ j.
        nvs.content-end (nvs.begin true (probed s)) j
        ∙ nvs.content-begin true (probed s) j
        ∙ content-probed s j,
  )

  -- Settings with valid addresses that were saved are the settings after the next boot, whatever the
  -- flash held before and whatever the factory defaults are, and the boot leaves the flash as it is.
  pub begin-save :
      (m : Secrets) (n : Settings) (s : State)
      → HasAddresses n
      → ((begin nvs ips m (save nvs ips n s)).0 ≡ n)
        × ((j : String)
            → content (begin nvs ips m (save nvs ips n s)).1 j ≡ content (save nvs ips n s) j)
  begin-save m n s v = begin-Holds m n (save nvs ips n s) v (save-Holds nvs ips n s)

  pub defaults-HasAddresses : (m : Secrets) → HasAddresses (load_from_defaults m)
  unfolding load_from_defaults
  defaults-HasAddresses m = omega arith

  -- The first boot of a blank device takes the factory defaults and keeps them: other defaults of a
  -- later build change nothing.
  pub begin_blank_persists :
      (m m' : Secrets) (s : State)
      → content s "uSsid" ≡ none
      → ((begin nvs ips m s).0 ≡ load_from_defaults m)
        × ((begin nvs ips m' (begin nvs ips m s).1).0 ≡ load_from_defaults m)
  begin_blank_persists m m' s p =
      rw (begin-blank m s p)
        (refl, (begin-save m' (load_from_defaults m) (probed s) (defaults-HasAddresses m)).0)

  -- A factory reset of any device brings the defaults back, for this boot and the next ones, and no
  -- key of the old flash survives that the defaults do not write.
  pub factory_reset_lem :
      (m m' : Secrets) (s : State)
      → ((factory_reset nvs ips m s).0 ≡ load_from_defaults m)
        × ((begin nvs ips m' (factory_reset nvs ips m s).1).0 ≡ load_from_defaults m)
        × ((j : String)
            → content (factory_reset nvs ips m s).1 j
              ≡ latest j (entries ips (load_from_defaults m)) none)
  unfolding factory_reset
  factory_reset_lem m m' s = (
    refl,
    (begin-save m' (load_from_defaults m) cleared (defaults-HasAddresses m)).0,
    λ j.
        content-save nvs ips (load_from_defaults m) cleared j
        ∙ ap (latest j (entries ips (load_from_defaults m))) (
            nvs.content-end (nvs.clear (nvs.begin false s)) j
            ∙ nvs.content-clear (nvs.begin false s) j (nvs.mode-begin false s)),
  )
    where
      cleared : State
      cleared = nvs.end (nvs.clear (nvs.begin false s))

  read_all-settings_of :
      (d : Settings) (s : State)
      → read_all nvs ips d (nvs.begin true (probed s)) ≡ settings_of ips d (content s)
  unfolding read_all settings_of
  read_all-settings_of d s =
      ap (settings_of ips d)
        (fun_ext (λ k. get-begin nvs ips k true (probed s) ∙ content-probed s k))

  -- The boot of a provisioned device reads its settings from the flash key by key, each with the
  -- factory default where the flash has none that serves, and never writes to the flash: a
  -- configuration of an earlier build with fewer keys is neither lost nor overwritten.
  pub begin_provisioned_lem :
      (m : Secrets) (s : State)
      → is_some (content s "uSsid") ≡ true
      → ((begin nvs ips m s).0 ≡ settings_of ips (load_from_defaults m) (content s))
        × ((j : String) → content (begin nvs ips m s).1 j ≡ content s j)
  begin_provisioned_lem m s p = rw (begin-provisioned m s p) (
    read_all-settings_of (load_from_defaults m) s,
    λ j.
        nvs.content-end (nvs.begin true (probed s)) j
        ∙ nvs.content-begin true (probed s) j
        ∙ content-probed s j,
  )
