-- ===== src/Portal/Form.antt =====
-- `handleSave` of src/web/portal.cpp: the checks of the settings form, and what it changes.
use spool_gate.Base.{
  ℕ, true, ◌&&◌, Option, none, some, [], ◌∷◌, Text, String, codes, text_eq, is_empty, ltb,
  if◌then◌else◌, add32, Address, ℤ, pos, negsuc, length,
}
use spool_gate.Config.{Settings, AddressText}
use spool_gate.Portal.{
  Strings, Request, Portal, Response, FormError, uplink_ssid_empty, ap_ssid_empty, admin_user_empty,
  ap_ip_invalid, dns_invalid, ap_pass_short, eap_username_empty, config_page, saved_page, no_store,
  Env, arg, has_arg,
}
use spool_gate.Portal.Access.{guard}

-- `static_cast<uint8_t>(bri < 0 ? 0 : (bri > 255 ? 255 : bri))`
unfoldable pub clamp_byte : ℤ → ℕ
clamp_byte (negsuc n) = 0
clamp_byte (pos n) = if ltb 255 n then 255 else n

-- What the checks hand on: the two addresses, or the first complaint.
pub data Checked : Type 0 where
  refused : FormError → Checked
  accepted : Address → Address → Checked

abbrev pub config_response : Settings → Option FormError → Response
config_response s e = record {
  status = 200;
  headers = no_store ∷ [];
  body = config_page s e;
  saves = [];
  lines = [];
}

abbrev pub replaced : Text → Text → Text
replaced old new = if ltb 0 (length new) then new else old

module _ (strings : Strings) (ips : AddressText) where
  abbrev pub trimmed : String → Request → Text
  trimmed k q = strings.trim (arg k q)

  -- The last two checks.
  unfoldable pub check_passwords : Request → Settings → Address → Address → Checked
  check_passwords q s ap_ip dns =
      if ltb 0 (length (arg "apPass" q)) && ltb (length (arg "apPass" q)) 8
      then refused ap_pass_short
      else (if text_eq (arg "uAuth" q) (codes "ent")
            && (is_empty (arg "eapUser" q) && is_empty s.eap_username)
          then refused eap_username_empty
          else accepted ap_ip dns)

  unfoldable pub check_addresses : Request → Settings → Checked
  unfolding check_passwords
  check_addresses q s = elim (ips.from_string (arg "apIp" q)) [
    | none ↦ refused ap_ip_invalid
    | some ap_ip ↦ elim (ips.from_string (arg "dns" q)) [
      | none ↦ refused dns_invalid
      | some dns ↦ check_passwords q s ap_ip dns
    ]
  ]

  -- The chain of checks that sets `err`.
  unfoldable pub check_form : Request → Settings → Checked
  unfolding check_addresses
  check_form q s =
      if is_empty (trimmed "uSsid" q)
      then refused uplink_ssid_empty
      else (if is_empty (trimmed "apSsid" q)
          then refused ap_ssid_empty
          else (if is_empty (trimmed "admUser" q)
              then refused admin_user_empty
              else check_addresses q s))

  -- The settings `n`: the old ones with what the form carried.
  unfoldable pub apply_form : Request → Address → Address → Settings → Settings
  unfolding clamp_byte
  apply_form q ap_ip dns s = record {
    uplink_ssid = trimmed "uSsid" q;
    uplink_enterprise =
        if has_arg "uAuth" q then text_eq (arg "uAuth" q) (codes "ent") else s.uplink_enterprise;
    uplink_pass = replaced s.uplink_pass (arg "uPass" q);
    eap_identity = replaced s.eap_identity (arg "eapId" q);
    eap_username = replaced s.eap_username (arg "eapUser" q);
    eap_password = replaced s.eap_password (arg "eapPass" q);
    ap_ssid = trimmed "apSsid" q;
    ap_pass = if ltb (length (arg "apPass" q)) 8 then s.ap_pass else arg "apPass" q;
    ap_ip = ap_ip;
    dns = dns;
    led_brightness = clamp_byte (strings.to_int (arg "ledBri" q));
    admin_user = trimmed "admUser" q;
    admin_pass = replaced s.admin_pass (arg "admPass" q);
  }

  -- `handleSave` behind its guard.
  unfoldable pub save_form : Env → Request → Portal → Portal × Response
  unfolding check_form
  save_form env q p = elim (check_form q p.settings) [
    | refused e ↦ (p, config_response p.settings (some e))
    | accepted ap_ip dns ↦ (
      record p {
        settings = apply_form q ap_ip dns p.settings;
        reboot_at_ms = add32 env.save_now 1500;
      },
      record {
        status = 200;
        headers = no_store ∷ [];
        body = saved_page;
        saves = apply_form q ap_ip dns p.settings ∷ [];
        lines = [];
      },
    )
  ]

  unfoldable pub handle_save : Env → Request → Portal → Portal × Response
  handle_save env q p = guard strings true env q (save_form env q) p
