-- ===== src/Portal/Tame.antt =====
-- The parts of the settings page: each starts and ends between two tags, and its values stay where they
-- are put.
use spool_gate.Base.{
  All-append, ℕ, zero, suc, ◌+◌, ◌/◌, ◌%◌, ◌<◌, refl, Option, none, some, [], ◌∷◌, String, decimal,
  decimal_from, ltb, arith, All, Bool-cases, inl, inr,
}
use spool_gate.Config.{Settings, AddressText}
use spool_gate.Portal.{
  FormError, uplink_ssid_empty, ap_ssid_empty, admin_user_empty, ap_ip_invalid, dns_invalid,
  ap_pass_short, eap_username_empty,
}
use spool_gate.Portal.Escape.{html_escape-IsInert, IsInert}
use spool_gate.Portal.Markup.{markup, page_head, page_foot, css}
use spool_gate.Portal.Page.{Status, append_status}
use spool_gate.Portal.ConfigPage.{
  rows_pieces, error_text, error_pieces, security_options, tab_pieces, uplink_pieces, ap_pieces,
  led_pieces, admin_pieces, config_script, form_pieces, config_pieces,
}
use spool_gate.Portal.TameRows.{IsName, nothing-IsTame, append_status-IsTame}
use spool_gate.Portal.Structure.{next, after, contained, leaves, AllInert, IsTame, append-IsTame}

decimal_from-IsInert : (f n : ℕ) → All IsInert (decimal_from f n)
unfolding decimal_from
decimal_from-IsInert zero n = tt
decimal_from-IsInert (suc f) n = elim (Bool-cases (ltb n 10)) [
  | inl small ↦ rw small (digit n (ground arith), tt)
  | inr large ↦ rw large (
      All-append IsInert (decimal_from f (n / 10)) ((48 + n % 10) ∷ [])
        (decimal_from-IsInert f (n / 10)) (digit (n % 10) (omega arith), tt))
]
  where
    digit : (d : ℕ) → d < 10 → IsInert (48 + d)
    digit d l = ground arith

pub decimal-IsInert : (n : ℕ) → All IsInert (decimal n)
unfolding decimal
decimal-IsInert n = decimal_from-IsInert 10 n

-- The addresses are printed without escaping: they are to hold no byte of the markup.
pub record HasInertAddresses (ips : AddressText) (s : Settings) : Type 0 where
  pub ap_ip_inert : All IsInert (ips.to_string s.ap_ip)
  pub dns_inert : All IsInert (ips.to_string s.dns)

uplink_pieces-IsTame : (s : Settings) → IsTame (uplink_pieces s)
unfolding uplink_pieces contained leaves AllInert after next security_options
uplink_pieces-IsTame s =
    let ssid = html_escape-IsInert s.uplink_ssid in
    let identity = html_escape-IsInert s.eap_identity in
    let username = html_escape-IsInert s.eap_username in
    elim (Bool-cases s.uplink_enterprise) [
      | inl e ↦
          rw e
            (record { contains = refl; returns = refl; inert = (ssid, (identity, (username, tt))) })
      | inr p ↦
          rw p
            (record { contains = refl; returns = refl; inert = (ssid, (identity, (username, tt))) })
    ]

ap_pieces-IsTame :
    (ips : AddressText) (s : Settings) → HasInertAddresses ips s → IsTame (ap_pieces ips s)
unfolding ap_pieces contained leaves AllInert after next
ap_pieces-IsTame ips s h = record {
  contains = refl;
  returns = refl;
  inert = (html_escape-IsInert s.ap_ssid, (h.ap_ip_inert, (h.dns_inert, tt)));
}

led_pieces-IsTame : (s : Settings) → IsTame (led_pieces s)
unfolding led_pieces contained leaves AllInert after next
led_pieces-IsTame s = record {
  contains = refl;
  returns = refl;
  inert = (decimal-IsInert s.led_brightness, tt);
}

admin_pieces-IsTame : (s : Settings) → IsTame (admin_pieces s)
unfolding admin_pieces contained leaves AllInert after next
admin_pieces-IsTame s = record {
  contains = refl;
  returns = refl;
  inert = (html_escape-IsInert s.admin_user, tt);
}

head-IsTame : IsTame (page_head " Settings")
unfolding page_head css contained leaves AllInert after next
head-IsTame = record { contains = refl; returns = refl; inert = tt }

heading-IsTame : (h : String) → IsName h → IsTame (markup h ∷ [])
unfolding contained leaves AllInert
heading-IsTame h n = record { contains = refl; returns = n; inert = tt }

tab_pieces-IsTame : IsTame tab_pieces
unfolding tab_pieces contained leaves AllInert after next
tab_pieces-IsTame = record { contains = refl; returns = refl; inert = tt }

config_script-IsTame : IsTame config_script
unfolding config_script contained leaves AllInert after next
config_script-IsTame = record { contains = refl; returns = refl; inert = tt }

page_foot-IsTame : IsTame page_foot
unfolding page_foot contained leaves AllInert after next
page_foot-IsTame = record { contains = refl; returns = refl; inert = tt }

error_text-IsName : (e : FormError) → IsName (error_text e)
unfolding error_text after next
error_text-IsName uplink_ssid_empty = refl
error_text-IsName ap_ssid_empty = refl
error_text-IsName admin_user_empty = refl
error_text-IsName ap_ip_invalid = refl
error_text-IsName dns_invalid = refl
error_text-IsName ap_pass_short = refl
error_text-IsName eap_username_empty = refl

error_pieces-IsTame : (e : Option FormError) → IsTame (error_pieces e)
unfolding error_pieces contained leaves AllInert after next
error_pieces-IsTame none = nothing-IsTame
error_pieces-IsTame (some e) = record {
  contains = refl;
  returns = rw (error_text-IsName e) refl;
  inert = tt;
}

form_pieces-IsTame :
    (ips : AddressText) (s : Settings) → HasInertAddresses ips s → IsTame (form_pieces ips s)
unfolding form_pieces
form_pieces-IsTame ips s h = append-IsTame tab_pieces _ tab_pieces-IsTame (
    append-IsTame (uplink_pieces s) _ (uplink_pieces-IsTame s) (
      append-IsTame (ap_pieces ips s) _ (ap_pieces-IsTame ips s h) (
        append-IsTame (led_pieces s) _ (led_pieces-IsTame s) (
          append-IsTame (admin_pieces s) config_script (admin_pieces-IsTame s)
            config_script-IsTame))))

pub config_pieces-IsTame :
    (ips : AddressText) (st : Status) (s : Settings) (e : Option FormError)
    → HasInertAddresses ips s
    → IsTame (config_pieces ips st s e)
unfolding config_pieces after next
config_pieces-IsTame ips st s e h = append-IsTame (page_head " Settings") _ head-IsTame (
    append-IsTame (markup "<h1>SpoolGate</h1><p class=sub>Settings</p>" ∷ []) _
      (heading-IsTame _ refl)
      (append-IsTame (error_pieces e) _ (error_pieces-IsTame e) (
        append-IsTame (markup "<h2>Current state</h2>" ∷ []) _ (heading-IsTame _ refl) (
          append-IsTame (rows_pieces (append_status ips st s)) _ (append_status-IsTame ips st s) (
            append-IsTame (form_pieces ips s) page_foot (form_pieces-IsTame ips s h)
              page_foot-IsTame)))))
