-- ===== src/Portal/Resubmit.antt =====
-- The settings form sent back as it was rendered.
use spool_gate.Base.{
  ℕ, zero, suc, ◌+◌, ◌/◌, ◌%◌, ◌<◌, ◌≡◌, refl, Bool, true, false, ◌&&◌, some, [], ◌∷◌, ◌++◌, map,
  Text, codes, is_empty, if◌then◌else◌, decimal, decimal_from, ltb, length, ap, arith, ◌∙◌, text_eq,
  Bool-cases, inl, inr, Address, IsAddress,
}
use spool_gate.Config.{Settings, AddressText}
use spool_gate.Config.Flash.{HasAddresses}
use spool_gate.Portal.{Strings, Request, Portal, Env, is_trimmed, saved_page, eap_username_empty}
use spool_gate.Portal.Escape.{html_escape, no_ampersand}
use spool_gate.Portal.Form.{
  Checked, accepted, refused, clamp_byte, replaced, check_passwords, check_addresses, check_form,
  apply_form, save_form,
}
use spool_gate.Portal.Page.{form_inputs}

-- How the browser reads the value of an input, as an interface: an escaped text as the text, and a
-- text without references as it is.
pub record Browser : Type 0 where
  pub read : Text → Text
  pub read-html_escape : (t : Text) → read (html_escape t) ≡ t
  pub read_plain : (t : Text) → no_ampersand t ≡ true → read t ≡ t

no_ampersand-append :
    (t u : Text) → no_ampersand t ≡ true → no_ampersand u ≡ true → no_ampersand (t ++ u) ≡ true
no_ampersand-append [] u h k = k
no_ampersand-append (c ∷ t) u h k = ground (arith, no_ampersand-append t u)

decimal_digit : (d : ℕ) → d < 10 → no_ampersand ((48 + d) ∷ []) ≡ true
decimal_digit d l = ground arith

no_ampersand-decimal_from : (f n : ℕ) → no_ampersand (decimal_from f n) ≡ true
unfolding decimal_from
no_ampersand-decimal_from zero n = refl
no_ampersand-decimal_from (suc f) n = elim (Bool-cases (ltb n 10)) [
  | inl small ↦ rw small (decimal_digit n (ground arith))
  | inr large ↦ rw large (
      no_ampersand-append (decimal_from f (n / 10)) ((48 + n % 10) ∷ [])
        (no_ampersand-decimal_from f (n / 10)) (decimal_digit (n % 10) (omega arith)))
]

replaced_same : (t : Text) → replaced t t ≡ t
replaced_same [] = refl
replaced_same (c ∷ t) = ground arith

has_username :
    (b e : Bool) (x y : Checked) → (b && e) ≡ false → (if b && (e && e) then x else y) ≡ y
has_username true true x y h = cc
has_username true false x y h = refl
has_username false e x y h = refl

module _ (strings : Strings) (ips : AddressText) (browser : Browser) where
  open browser use {read, read-html_escape, read_plain}

  -- The request that the browser makes of the form.
  abbrev pub resubmit : Request → Settings → Request
  resubmit q s = record q { args = map (λ input. (input.0, read input.1)) (form_inputs ips s) }

  -- What is asked of the settings: they pass the checks of the form, and the texts that are trimmed have
  -- nothing to trim.
  pub record Passable (s : Settings) : Type 0 where
    pub ssid : (is_empty s.uplink_ssid ≡ false) × (is_trimmed s.uplink_ssid ≡ true)
    pub ap_ssid : (is_empty s.ap_ssid ≡ false) × (is_trimmed s.ap_ssid ≡ true)
    pub admin : (is_empty s.admin_user ≡ false) × (is_trimmed s.admin_user ≡ true)
    pub username : (s.uplink_enterprise && is_empty s.eap_username) ≡ false
    pub addresses : HasAddresses s
    pub plain :
        (no_ampersand (ips.to_string s.ap_ip) ≡ true) × (no_ampersand (ips.to_string s.dns) ≡ true)
    pub brightness : s.led_brightness < 256

  trim_read : (t : Text) → is_trimmed t ≡ true → strings.trim (read (html_escape t)) ≡ t
  trim_read t h = ap strings.trim (read-html_escape t) ∙ strings.trim_trimmed t h

  replaced_read : (t : Text) → replaced t (read (html_escape t)) ≡ t
  replaced_read t = ap (replaced t) (read-html_escape t) ∙ replaced_same t

  replaced_none : (t : Text) → replaced t (read []) ≡ t
  replaced_none t = ap (replaced t) (read_plain [] refl)

  read_auth :
      (b : Bool) → text_eq (read (if b then codes "ent" else codes "personal")) (codes "ent") ≡ b
  unfolding text_eq
  read_auth true = ap (λ t. text_eq t (codes "ent")) (read_plain (codes "ent") refl)
  read_auth false = ap (λ t. text_eq t (codes "ent")) (read_plain (codes "personal") refl)

  read_brightness : (n : ℕ) → n < 256 → clamp_byte (strings.to_int (read (decimal n))) ≡ n
  unfolding clamp_byte decimal
  read_brightness n l =
      ap (λ t. clamp_byte (strings.to_int t))
        (read_plain (decimal n) (no_ampersand-decimal_from 10 n))
      ∙ ap clamp_byte (strings.to_int-decimal n l)
      ∙ ground arith

  read_address :
      (ip : Address)
      → IsAddress ip
      → no_ampersand (ips.to_string ip) ≡ true
      → ips.from_string (read (ips.to_string ip)) ≡ some ip
  read_address ip v h =
      ap ips.from_string (read_plain (ips.to_string ip) h) ∙ ips.from_string-to_string ip v

  short_pass : (s old : Text) → (if ltb (length (read [])) 8 then old else s) ≡ old
  short_pass s old = ap (λ t. if ltb (length t) 8 then old else s) (read_plain [] refl)

  apply_form-resubmit :
      (q : Request) (s : Settings)
      → Passable s
      → apply_form strings ips (resubmit q s) s.ap_ip s.dns s ≡ s
  unfolding apply_form form_inputs
  apply_form-resubmit q s k = λ i. record {
    uplink_ssid = trim_read s.uplink_ssid k.ssid.1 i;
    uplink_enterprise = read_auth s.uplink_enterprise i;
    uplink_pass = replaced_none s.uplink_pass i;
    eap_identity = replaced_read s.eap_identity i;
    eap_username = replaced_read s.eap_username i;
    eap_password = replaced_none s.eap_password i;
    ap_ssid = trim_read s.ap_ssid k.ap_ssid.1 i;
    ap_pass = short_pass (read []) s.ap_pass i;
    ap_ip = s.ap_ip;
    dns = s.dns;
    led_brightness = read_brightness s.led_brightness k.brightness i;
    admin_user = trim_read s.admin_user k.admin.1 i;
    admin_pass = replaced_none s.admin_pass i;
  }

  check_form-resubmit :
      (q : Request) (s : Settings)
      → Passable s
      → check_form strings ips (resubmit q s) s ≡ accepted s.ap_ip s.dns
  unfolding check_form check_addresses check_passwords form_inputs
  check_form-resubmit q s k =
      rw
        (
          trim_read s.uplink_ssid k.ssid.1,
          k.ssid.0,
          trim_read s.ap_ssid k.ap_ssid.1,
          k.ap_ssid.0,
          trim_read s.admin_user k.admin.1,
          k.admin.0,
          check_addresses,
          read_address s.ap_ip k.addresses.ap_ip_valid k.plain.0,
          read_address s.dns k.addresses.dns_valid k.plain.1,
          check_passwords,
          read_plain [] refl,
          read_auth s.uplink_enterprise,
          read-html_escape s.eap_username,
        )
        (has_username s.uplink_enterprise (is_empty s.eap_username) (refused eap_username_empty)
          (accepted s.ap_ip s.dns) k.username)

  -- A settings page that is sent back as it was rendered is accepted and changes nothing, passwords
  -- included: if the settings pass the checks of the form, and the names have no white space around
  -- them, then exactly the settings as they are are saved.
  pub save_form-resubmit :
      (env : Env) (q : Request) (p : Portal)
      → Passable p.settings
      → let r = save_form strings ips env (resubmit q p.settings) p in
        (r.0.settings ≡ p.settings) × (r.1.saves ≡ p.settings ∷ []) × (r.1.body ≡ saved_page)
  unfolding save_form
  save_form-resubmit env q p k =
      rw (check_form-resubmit q p.settings k, save_form)
        (
          apply_form-resubmit q p.settings k,
          ap (λ n. n ∷ []) (apply_form-resubmit q p.settings k),
          refl,
        )
