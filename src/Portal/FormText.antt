-- ===== src/Portal/FormText.antt =====
-- The markup of the settings form as a browser reads it: `appendConfigForm` of src/web/portal.cpp.
use mathlib.Core.List.{append-nil}
use spool_gate.Base.{
  ◌≡◌, refl, ap, sym, ◌∙◌, Bool, true, false, List, [], ◌∷◌, Text, codes, map, text_eq,
  if◌then◌else◌, decimal,
}
use spool_gate.Config.{Settings, AddressText}
use spool_gate.Portal.Escape.{html_escape, html_escape-IsInert}
use spool_gate.Portal.Markup.{page_text}
use spool_gate.Portal.Page.{form_inputs}
use spool_gate.Portal.ConfigPage.{
  security_options, tab_pieces, uplink_pieces, ap_pieces, led_pieces, admin_pieces, config_script,
  form_pieces,
}
use spool_gate.Portal.Tame.{HasInertAddresses, decimal-IsInert}
use spool_gate.Portal.Parts.{Holds, append-Holds, given, given_lem}
use spool_gate.Portal.Reader.{
  outside, take_byte, read_text, read_pieces, tags, AllQuiet, read_text-page_text, stripped,
  unquoted, attribute, attribute_value, open_select, input_of, inputs_of,
}

tab_pieces-Holds : Holds tab_pieces []
unfolding read_pieces read_text take_byte AllQuiet inputs_of input_of open_select attribute_value
    attribute unquoted stripped text_eq tab_pieces
tab_pieces-Holds = record { quiet = tt; returns = refl; inputs_found = λ rest. refl }

config_script-Holds : Holds config_script []
unfolding read_pieces read_text take_byte AllQuiet inputs_of input_of open_select attribute_value
    attribute unquoted stripped text_eq config_script
config_script-Holds = record { quiet = tt; returns = refl; inputs_found = λ rest. refl }

led_pieces-Holds :
    (s : Settings) → Holds (led_pieces s) ((codes "ledBri", decimal s.led_brightness) ∷ [])
unfolding read_pieces read_text take_byte AllQuiet inputs_of input_of open_select attribute_value
    attribute unquoted stripped text_eq led_pieces given
led_pieces-Holds s = record {
  quiet = (refl, decimal-IsInert s.led_brightness, tt);
  returns = refl;
  inputs_found = λ rest. λ i. given_lem "ledBri" (decimal s.led_brightness) i ∷ inputs_of [] rest;
}

admin_pieces-Holds :
    (s : Settings)
    → Holds
        (admin_pieces s)
        ((codes "admUser", html_escape s.admin_user) ∷ (codes "admPass", []) ∷ [])
unfolding read_pieces read_text take_byte AllQuiet inputs_of input_of open_select attribute_value
    attribute unquoted stripped text_eq admin_pieces given
admin_pieces-Holds s = record {
  quiet = (refl, html_escape-IsInert s.admin_user, tt);
  returns = refl;
  inputs_found = λ rest. λ i.
      given_lem "admUser" (html_escape s.admin_user) i ∷ (codes "admPass", []) ∷ inputs_of [] rest;
}

ap_pieces-Holds :
    (ips : AddressText) (s : Settings)
    → HasInertAddresses ips s
    → Holds (ap_pieces ips s) (
        (codes "apSsid", html_escape s.ap_ssid)
        ∷ (codes "apPass", [])
        ∷ (codes "apIp", ips.to_string s.ap_ip)
        ∷ (codes "dns", ips.to_string s.dns)
        ∷ [])
unfolding read_pieces read_text take_byte AllQuiet inputs_of input_of open_select attribute_value
    attribute unquoted stripped text_eq ap_pieces given
ap_pieces-Holds ips s h = record {
  quiet = (refl, html_escape-IsInert s.ap_ssid, (refl, h.ap_ip_inert, (refl, h.dns_inert, tt)));
  returns = refl;
  inputs_found = λ rest. λ i.
      given_lem "apSsid" (html_escape s.ap_ssid) i
      ∷ (codes "apPass", [])
      ∷ given_lem "apIp" (ips.to_string s.ap_ip) i
      ∷ given_lem "dns" (ips.to_string s.dns) i
      ∷ inputs_of [] rest;
}

uplink_inputs : Settings → Bool → List (Text × Text)
uplink_inputs s enterprise =
    (codes "uSsid", html_escape s.uplink_ssid)
    ∷ (codes "uAuth", if enterprise then codes "ent" else codes "personal")
    ∷ (codes "uPass", [])
    ∷ (codes "eapId", html_escape s.eap_identity)
    ∷ (codes "eapUser", html_escape s.eap_username)
    ∷ (codes "eapPass", [])
    ∷ []

uplink_pieces-Holds :
    (s : Settings) (b : Bool)
    → s.uplink_enterprise ≡ b
    → Holds (uplink_pieces s) (uplink_inputs s b)
unfolding read_pieces read_text take_byte AllQuiet inputs_of input_of open_select attribute_value
    attribute unquoted stripped text_eq uplink_pieces security_options uplink_inputs given
uplink_pieces-Holds s true e = rw e record {
  quiet = (
    refl,
    html_escape-IsInert s.uplink_ssid,
    (refl, html_escape-IsInert s.eap_identity, (refl, html_escape-IsInert s.eap_username, tt)),
  );
  returns = refl;
  inputs_found = λ rest. λ i.
      given_lem "uSsid" (html_escape s.uplink_ssid) i
      ∷ (codes "uAuth", codes "ent")
      ∷ (codes "uPass", [])
      ∷ given_lem "eapId" (html_escape s.eap_identity) i
      ∷ given_lem "eapUser" (html_escape s.eap_username) i
      ∷ (codes "eapPass", [])
      ∷ inputs_of [] rest;
}
uplink_pieces-Holds s false e = rw e record {
  quiet = (
    refl,
    html_escape-IsInert s.uplink_ssid,
    (refl, html_escape-IsInert s.eap_identity, (refl, html_escape-IsInert s.eap_username, tt)),
  );
  returns = refl;
  inputs_found = λ rest. λ i.
      given_lem "uSsid" (html_escape s.uplink_ssid) i
      ∷ (codes "uAuth", codes "personal")
      ∷ (codes "uPass", [])
      ∷ given_lem "eapId" (html_escape s.eap_identity) i
      ∷ given_lem "eapUser" (html_escape s.eap_username) i
      ∷ (codes "eapPass", [])
      ∷ inputs_of [] rest;
}

form_pieces-Holds :
    (ips : AddressText) (s : Settings)
    → HasInertAddresses ips s
    → Holds (form_pieces ips s) (map (λ input. (codes (input.0), input.1)) (form_inputs ips s))
unfolding form_pieces form_inputs uplink_inputs
form_pieces-Holds ips s h = append-Holds tab_pieces _ [] _ tab_pieces-Holds (
    append-Holds (uplink_pieces s) _ _ _ (uplink_pieces-Holds s s.uplink_enterprise refl) (
      append-Holds (ap_pieces ips s) _ _ _ (ap_pieces-Holds ips s h) (
        append-Holds (led_pieces s) _ _ _ (led_pieces-Holds s) (
          append-Holds (admin_pieces s) config_script _ [] (admin_pieces-Holds s)
            config_script-Holds))))

-- A browser that reads the markup of the settings form finds exactly the inputs that the form is to
-- have, in their order, each with its stored value as it is escaped and the passwords empty, and as the
-- chosen security the one that is stored: whatever the stored texts are, provided that the two addresses
-- print without bytes of the markup.
pub tags-form_pieces :
    (ips : AddressText) (s : Settings)
    → HasInertAddresses ips s
    → inputs_of [] (tags (page_text (form_pieces ips s)))
      ≡ map (λ input. (codes (input.0), input.1)) (form_inputs ips s)
unfolding tags inputs_of
tags-form_pieces ips s h =
    let k = form_pieces-Holds ips s h in
    ap (λ x. inputs_of [] (x.1)) (read_text-page_text outside (form_pieces ips s) k.quiet)
    ∙ (ap (inputs_of []) (sym (append-nil _)) ∙ (k.inputs_found [] ∙ append-nil _))
