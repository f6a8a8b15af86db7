-- ===== src/Config.antt =====
-- src/config.h and src/config.cpp: the settings and how they are kept in NVS flash. The Arduino
-- libraries `Preferences` (Config/Nvs) and `IPAddress` (its text form) are not under src/, nor is
-- `secrets.h`, so a store, the conversion of addresses and the factory defaults are parameters.
-- `settings` is a global of the code: a function that sets it returns the new value.
pub mod Nvs
pub mod Flash
pub mod Reboot
use spool_gate.Base.{
  ℕ, Bool, true, false, not, ◌≡◌, Option, none, some, Text, Address, IsAddress, if◌then◌else◌,
  String, codes,
}
use Nvs.{Store, Value, str, flag, byte, get_text, get_flag, get_byte}

pub record Settings : Type 0 where
  pub uplink_ssid : Text
  pub uplink_enterprise : Bool
  pub uplink_pass : Text
  pub eap_identity : Text
  pub eap_username : Text
  pub eap_password : Text
  pub ap_ssid : Text
  pub ap_pass : Text
  pub ap_ip : Address
  pub dns : Address
  pub led_brightness : ℕ  -- uint8_t
  pub admin_user : Text
  pub admin_pass : Text

-- The macros of `secrets.h`.
pub record Secrets : Type 0 where
  pub uplink_ssid : Text
  pub uplink_auth_enterprise : Bool
  pub uplink_pass : Text
  pub uplink_eap_identity : Text
  pub uplink_eap_username : Text
  pub uplink_eap_password : Text
  pub printernet_ssid : Text
  pub printernet_pass : Text

-- `IPAddress::fromString` and `toString`: what is printed reads back as the address,
-- and what is read is an address.
pub record AddressText : Type 0 where
  pub from_string : Text → Option Address
  pub to_string : Address → Text
  pub from_string-to_string : (ip : Address) → IsAddress ip → from_string (to_string ip) ≡ some ip
  pub from_string-IsAddress : (t : Text) (ip : Address) → from_string t ≡ some ip → IsAddress ip

unfoldable pub parse_ip : AddressText → Text → Address → Address
parse_ip ips s fallback = elim (ips.from_string s) [ some ip ↦ ip | none ↦ fallback ]

unfoldable pub load_from_defaults : Secrets → Settings
load_from_defaults m = record {
  uplink_ssid = m.uplink_ssid;
  uplink_enterprise = m.uplink_auth_enterprise;
  uplink_pass = m.uplink_pass;
  eap_identity = m.uplink_eap_identity;
  eap_username = m.uplink_eap_username;
  eap_password = m.uplink_eap_password;
  ap_ssid = m.printernet_ssid;
  ap_pass = m.printernet_pass;
  ap_ip = record { a = 192; b = 168; c = 5; d = 1 };
  dns = record { a = 1; b = 1; c = 1; d = 1 };
  led_brightness = 64;
  admin_user = codes "admin";
  admin_pass = m.printernet_pass;
}

module _ (nvs : Store) (ips : AddressText) where
  open nvs use {State, put, is_key}

  -- The calls of `save` between `prefs.begin` and `prefs.end`.
  unfoldable pub put_all : Settings → State → State
  put_all n s₀ =
      let s₁ = put "uSsid" (str n.uplink_ssid) s₀ in
      let s₂ = put "uEnt" (flag n.uplink_enterprise) s₁ in
      let s₃ = put "uPass" (str n.uplink_pass) s₂ in
      let s₄ = put "eapId" (str n.eap_identity) s₃ in
      let s₅ = put "eapUser" (str n.eap_username) s₄ in
      let s₆ = put "eapPass" (str n.eap_password) s₅ in
      let s₇ = put "apSsid" (str n.ap_ssid) s₆ in
      let s₈ = put "apPass" (str n.ap_pass) s₇ in
      let s₉ = put "apIp" (str (ips.to_string n.ap_ip)) s₈ in
      let s₁₀ = put "dns" (str (ips.to_string n.dns)) s₉ in
      let s₁₁ = put "ledBri" (byte n.led_brightness) s₁₀ in
      let s₁₂ = put "admUser" (str n.admin_user) s₁₁ in put "admPass" (str n.admin_pass) s₁₂

  unfoldable pub save : Settings → State → State
  save n s = nvs.end (put_all n (nvs.begin false s))

  -- The getters of `begin`, over the defaults `d`.
  unfoldable pub read_all : Settings → State → Settings
  unfolding parse_ip
  read_all d s = record {
    uplink_ssid = get_text nvs "uSsid" d.uplink_ssid s;
    uplink_enterprise = get_flag nvs "uEnt" d.uplink_enterprise s;
    uplink_pass = get_text nvs "uPass" d.uplink_pass s;
    eap_identity = get_text nvs "eapId" d.eap_identity s;
    eap_username = get_text nvs "eapUser" d.eap_username s;
    eap_password = get_text nvs "eapPass" d.eap_password s;
    ap_ssid = get_text nvs "apSsid" d.ap_ssid s;
    ap_pass = get_text nvs "apPass" d.ap_pass s;
    ap_ip = parse_ip ips (get_text nvs "apIp" (ips.to_string d.ap_ip) s) d.ap_ip;
    dns = parse_ip ips (get_text nvs "dns" (ips.to_string d.dns) s) d.dns;
    led_brightness = get_byte nvs "ledBri" d.led_brightness s;
    admin_user = get_text nvs "admUser" d.admin_user s;
    admin_pass = get_text nvs "admPass" d.admin_pass s;
  }

  -- `begin()`: the settings, and the store behind it.
  unfoldable pub begin : Secrets → State → Settings × State
  begin m s =
      let d = load_from_defaults m in
      let opened = nvs.begin false s in
      let provisioned = is_key "uSsid" opened in
      let closed = nvs.end opened in
      let reading = nvs.begin true closed in
      if not provisioned then (d, save d closed) else (read_all d reading, nvs.end reading)

  unfoldable pub factory_reset : Secrets → State → Settings × State
  factory_reset m s =
      let d = load_from_defaults m in (d, save d (nvs.end (nvs.clear (nvs.begin false s))))
