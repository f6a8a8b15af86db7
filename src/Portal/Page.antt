-- ===== src/Portal/Page.antt =====
-- What the settings page shows (src/web/portal.cpp): the rows of `appendStatus`, and the inputs of
-- `appendConfigForm` by name, in their order, each with the value that is rendered for it. The markup
-- around them is left out.
use spool_gate.Base.{
  ℕ, ◌+◌, ◌/◌, ◌%◌, ◌≡◌, refl, Bool, true, false, Option, none, some, List, [], ◌∷◌, ◌++◌, Text,
  String, codes, is_empty, if◌then◌else◌, decimal, length, ap, arith,
}
use spool_gate.Config.{Settings, AddressText}
use spool_gate.Portal.Escape.{html_escape}

-- The `wl_status_t` that the code names.
pub data StaStatus : Type 0 where
  connected no_ssid_avail connect_failed connection_lost disconnected idle scan_completed other :
      StaStatus

pub sta_status_name : StaStatus → String
sta_status_name connected = "connected"
sta_status_name no_ssid_avail = "SSID not found in scan"
sta_status_name connect_failed = "connect failed"
sta_status_name connection_lost = "connection lost"
sta_status_name disconnected = "disconnected"
sta_status_name idle = "idle"
sta_status_name scan_completed = "scan completed"
sta_status_name other = "unknown"

-- One row of the status: its name, its value as it is rendered, and its class.
pub record Row : Type 0 where
  pub name : String
  pub value : Text
  pub class : Option String

unfoldable pub kv : String → Text → Option String → Row
kv name value class = record { name = name; value = html_escape value; class = class }

unfoldable pub secret_summary : Text → Text
secret_summary secret =
    if is_empty secret then codes "(not set)" else decimal (length secret) ++ codes " chars stored"

-- `%02u` of a number below 100
two_digits : ℕ → Text
two_digits n = (48 + n / 10) ∷ (48 + n % 10) ∷ []

unfoldable pub uptime_string : ℕ → Text
unfolding two_digits
uptime_string now =
    let t = now / 1000 in
    decimal (t / 86400)
    ++ (codes "d "
        ++ (two_digits (t % 86400 / 3600)
            ++ (codes ":" ++ (two_digits (t % 3600 / 60) ++ (codes ":" ++ two_digits (t % 60))))))

-- What the page reads of the running system.
pub record Status : Type 0 where
  pub sta : StaStatus
  pub local_ip : Text
  pub gateway : Text
  pub dns : Text
  pub rssi : Text
  pub stations : ℕ
  pub napt : Bool
  pub now : ℕ
  pub last_reset : Text

unfoldable pub is_connected : StaStatus → Bool
is_connected connected = true
is_connected _ = false

-- The class of a row that is marked if the text is empty.
unfoldable pub marked : Text → Option String
marked t = if is_empty t then some "down" else none

unfoldable pub or_empty : Text → Text
or_empty t = if is_empty t then codes "(empty)" else t

unfoldable pub credential_rows : Settings → List Row
unfolding marked or_empty
credential_rows s =
    if s.uplink_enterprise
    then kv "EAP identity" (or_empty s.eap_identity) (marked s.eap_identity)
      ∷ kv "EAP username" (or_empty s.eap_username) (marked s.eap_username)
      ∷ kv "EAP password" (secret_summary s.eap_password) (marked s.eap_password)
      ∷ []
    else kv "Password" (secret_summary s.uplink_pass) (marked s.uplink_pass) ∷ []

unfoldable pub status_head : Status → Settings → List Row
unfolding is_connected
status_head st s =
    let up = is_connected st.sta in
    kv "Uplink" (if up then codes "Up" else codes "Down") (some (if up then "up" else "down"))
    ∷ kv "STA status" (codes (sta_status_name st.sta)) none
    ∷ kv "SSID in use" s.uplink_ssid none
    ∷ kv "Security"
        (if s.uplink_enterprise then codes "WPA2-Enterprise (802.1X)" else codes "WPA2-Personal")
        none
    ∷ []

unfoldable pub link_rows : Status → List Row
unfolding is_connected
link_rows st =
    if is_connected st.sta
    then kv "IP address" st.local_ip none
      ∷ kv "Gateway" st.gateway none
      ∷ kv "Upstream DNS" st.dns none
      ∷ kv "Signal" (st.rssi ++ codes " dBm") none
      ∷ []
    else []

unfoldable pub router_rows : AddressText → Status → Settings → List Row
router_rows ips st s =
    kv "SoftAP" (s.ap_ssid ++ (codes " on " ++ ips.to_string s.ap_ip)) none
    ∷ kv "Clients joined" (decimal st.stations) none
    ∷ kv "NAPT" (if st.napt then codes "on" else codes "off")
        (some (if st.napt then "up" else "down"))
    ∷ kv "Uptime" (uptime_string st.now) none
    ∷ kv "Last reset" st.last_reset none
    ∷ []

unfoldable pub status_tail : AddressText → Status → Settings → List Row
status_tail ips st s = link_rows st ++ router_rows ips st s

-- The rows of `appendStatus`.
unfoldable pub append_status : AddressText → Status → Settings → List Row
append_status ips st s = status_head st s ++ (credential_rows s ++ status_tail ips st s)

-- The inputs of the form; the value of the `select` is that of the option that is selected.
unfoldable pub form_inputs : AddressText → Settings → List (String × Text)
form_inputs ips s =
    ("uSsid", html_escape s.uplink_ssid)
    ∷ ("uAuth", if s.uplink_enterprise then codes "ent" else codes "personal")
    ∷ ("uPass", [])
    ∷ ("eapId", html_escape s.eap_identity)
    ∷ ("eapUser", html_escape s.eap_username)
    ∷ ("eapPass", [])
    ∷ ("apSsid", html_escape s.ap_ssid)
    ∷ ("apPass", [])
    ∷ ("apIp", ips.to_string s.ap_ip)
    ∷ ("dns", ips.to_string s.dns)
    ∷ ("ledBri", decimal s.led_brightness)
    ∷ ("admUser", html_escape s.admin_user)
    ∷ ("admPass", [])
    ∷ []

length-is_empty : (t u : Text) → length t ≡ length u → is_empty t ≡ is_empty u
length-is_empty [] [] e = refl
length-is_empty [] (c ∷ u) e = absurd (omega arith)
length-is_empty (c ∷ t) [] e = absurd (omega arith)
length-is_empty (c ∷ t) (d ∷ u) e = refl

secret_summary-length : (t u : Text) → length t ≡ length u → secret_summary t ≡ secret_summary u
unfolding secret_summary
secret_summary-length t u e = ground (arith, length-is_empty t u e)

credential_rows-secrets :
    (s : Settings) (psk eap : Text)
    → length psk ≡ length s.uplink_pass
    → length eap ≡ length s.eap_password
    → credential_rows (record s { uplink_pass = psk; eap_password = eap }) ≡ credential_rows s
unfolding credential_rows marked
credential_rows-secrets s psk eap e f =
    cong_rows s.uplink_enterprise (secret_summary-length psk s.uplink_pass e)
      (secret_summary-length eap s.eap_password f) (length-is_empty psk s.uplink_pass e)
      (length-is_empty eap s.eap_password f)
  where
    rows : Bool → Text → Text → Bool → Bool → List Row
    rows b psk_row eap_row psk_empty eap_empty =
        if b
        then kv "EAP identity" (or_empty s.eap_identity) (marked s.eap_identity)
          ∷ kv "EAP username" (or_empty s.eap_username) (marked s.eap_username)
          ∷ kv "EAP password" eap_row (if eap_empty then some "down" else none)
          ∷ []
        else kv "Password" psk_row (if psk_empty then some "down" else none) ∷ []

    cong_rows :
        (b : Bool) {t t' u u' : Text} {c c' d d' : Bool}
        → t ≡ t'
        → u ≡ u'
        → c ≡ c'
        → d ≡ d'
        → rows b t u c d ≡ rows b t' u' c' d'
    cong_rows b p q r v = λ i. rows b (p i) (q i) (r i) (v i)

-- The settings page shows of the four stored passwords at most how long the two of the uplink are: any
-- others of these lengths, and any passwords of the access point and of the operator, give the same
-- status rows and the same inputs.
pub page-secrets :
    (ips : AddressText) (st : Status) (s : Settings) (psk eap ap_pass admin_pass : Text)
    → length psk ≡ length s.uplink_pass
    → length eap ≡ length s.eap_password
    → let s' = record s {
      uplink_pass = psk;
      eap_password = eap;
      ap_pass = ap_pass;
      admin_pass = admin_pass;
    } in
      (append_status ips st s' ≡ append_status ips st s) × (form_inputs ips s' ≡ form_inputs ips s)
unfolding append_status status_head status_tail router_rows form_inputs credential_rows
page-secrets ips st s psk eap ap_pass admin_pass e f = (
  ap (λ rows. status_head st s ++ (rows ++ status_tail ips st s))
      (credential_rows-secrets s psk eap e f),
  refl,
)
