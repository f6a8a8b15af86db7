-- ===== src/Config/Flash.antt =====
-- What `save` leaves in the flash, and what the getters find there.
use text.Mathlib.Text.{◌==◌}
use spool_gate.Base.{
  Bool, true, false, ◌≡◌, ◌≢◌, refl, ap, ◌∙◌, Option, some, List, [], ◌∷◌, Text, Address, IsAddress,
  if◌then◌else◌, String,
}
use spool_gate.Config.Nvs.{
  Store, Value, str, flag, byte, closed, read_write, is_some, text_or, flag_or, byte_or, get_text,
}
use spool_gate.Config.{Settings, AddressText, parse_ip, put_all, save, read_all}

pub record HasAddresses (n : Settings) : Type 0 where
  pub ap_ip_valid : IsAddress n.ap_ip
  pub dns_valid : IsAddress n.dns

-- What a key holds after writes in the order of the list.
abbrev pub latest : String → List (String × Value) → Option Value → Option Value
latest j [] old = old
latest j ((k, v) ∷ es) old = latest j es (if k == j then some v else old)

abbrev pub entries : AddressText → Settings → List (String × Value)
entries ips n =
    ("uSsid", str n.uplink_ssid)
    ∷ ("uEnt", flag n.uplink_enterprise)
    ∷ ("uPass", str n.uplink_pass)
    ∷ ("eapId", str n.eap_identity)
    ∷ ("eapUser", str n.eap_username)
    ∷ ("eapPass", str n.eap_password)
    ∷ ("apSsid", str n.ap_ssid)
    ∷ ("apPass", str n.ap_pass)
    ∷ ("apIp", str (ips.to_string n.ap_ip))
    ∷ ("dns", str (ips.to_string n.dns))
    ∷ ("ledBri", byte n.led_brightness)
    ∷ ("admUser", str n.admin_user)
    ∷ ("admPass", str n.admin_pass)
    ∷ []

module _ (nvs : Store) (ips : AddressText) where
  open nvs use {State, put, content, mode}

  put_list : List (String × Value) → State → State
  put_list [] s = s
  put_list ((k, v) ∷ es) s = put_list es (put k v s)

  content-put_list :
      (es : List (String × Value)) (s : State) (j : String)
      → mode s ≡ read_write
      → content (put_list es s) j ≡ latest j es (content s j)
  unfolding put_list
  content-put_list [] s j w = refl
  content-put_list ((k, v) ∷ es) s j w =
      content-put_list es (put k v s) j (nvs.mode-put k v s ∙ w)
      ∙ ap (latest j es) (nvs.content-put k v s j w)

  put_all-put_list : (n : Settings) (s : State) → put_all nvs ips n s ≡ put_list (entries ips n) s
  unfolding put_all put_list
  put_all-put_list n s = refl

  -- The flash after a `save`.
  pub content-save :
      (n : Settings) (s : State) (j : String)
      → content (save nvs ips n s) j ≡ latest j (entries ips n) (content s j)
  unfolding save
  content-save n s j =
      nvs.content-end (put_all nvs ips n (nvs.begin false s)) j
      ∙ ap (λ t. content t j) (put_all-put_list n (nvs.begin false s))
      ∙ content-put_list (entries ips n) (nvs.begin false s) j (nvs.mode-begin false s)
      ∙ ap (latest j (entries ips n)) (nvs.content-begin false s j)

  begin-open : (ro : Bool) (s : State) → mode (nvs.begin ro s) ≢ closed
  begin-open true s e = cc (nvs.mode-begin true s)
  begin-open false s e = cc (nvs.mode-begin false s)

  -- What a read of an open store finds, by the flash before it was opened.
  pub get-begin : (k : String) (ro : Bool) (s : State) → nvs.get k (nvs.begin ro s) ≡ content s k
  get-begin k ro s = nvs.get-content k (nvs.begin ro s) (begin-open ro s) ∙ nvs.content-begin ro s k

  pub is_key-begin :
      (k : String) (ro : Bool) (s : State) → nvs.is_key k (nvs.begin ro s) ≡ is_some (content s k)
  is_key-begin k ro s =
      nvs.is_key-content k (nvs.begin ro s) (begin-open ro s)
      ∙ ap is_some (nvs.content-begin ro s k)

  -- The flash holds the settings `n`, written over whatever it held before.
  abbrev pub Holds : Settings → State → Type 0
  Holds n s =
      (old : String → Option Value) × ((j : String)
        → content s j ≡ latest j (entries ips n) (old j))

  pub save-Holds : (n : Settings) (s : State) → Holds n (save nvs ips n s)
  save-Holds n s = (content s, content-save n s)

  read-Holds :
      (n : Settings) (s : State) (h : Holds n s) (k : String)
      → nvs.get k (nvs.begin true s) ≡ latest k (entries ips n) (h.0 k)
  read-Holds n s h k = get-begin k true s ∙ h.1 k

  parse_ip-to_string :
      (ip d : Address) (t : Text) → IsAddress ip → t ≡ ips.to_string ip → parse_ip ips t d ≡ ip
  unfolding parse_ip
  parse_ip-to_string ip d t v e = rw (e, ips.from_string-to_string ip v, parse_ip)

  pub read_all-Holds :
      (n d : Settings) (s : State)
      → HasAddresses n
      → Holds n s
      → read_all nvs ips d (nvs.begin true s) ≡ n
  unfolding read_all
  read_all-Holds n d s v h = λ i. record {
    uplink_ssid = text_or d.uplink_ssid (read-Holds n s h "uSsid" i);
    uplink_enterprise = flag_or d.uplink_enterprise (read-Holds n s h "uEnt" i);
    uplink_pass = text_or d.uplink_pass (read-Holds n s h "uPass" i);
    eap_identity = text_or d.eap_identity (read-Holds n s h "eapId" i);
    eap_username = text_or d.eap_username (read-Holds n s h "eapUser" i);
    eap_password = text_or d.eap_password (read-Holds n s h "eapPass" i);
    ap_ssid = text_or d.ap_ssid (read-Holds n s h "apSsid" i);
    ap_pass = text_or d.ap_pass (read-Holds n s h "apPass" i);
    ap_ip =
        parse_ip-to_string n.ap_ip d.ap_ip
          (get_text nvs "apIp" (ips.to_string d.ap_ip) (nvs.begin true s)) v.ap_ip_valid
          (ap (text_or (ips.to_string d.ap_ip)) (read-Holds n s h "apIp")) i;
    dns =
        parse_ip-to_string n.dns d.dns (get_text nvs "dns" (ips.to_string d.dns) (nvs.begin true s))
          v.dns_valid (ap (text_or (ips.to_string d.dns)) (read-Holds n s h "dns")) i;
    led_brightness = byte_or d.led_brightness (read-Holds n s h "ledBri" i);
    admin_user = text_or d.admin_user (read-Holds n s h "admUser" i);
    admin_pass = text_or d.admin_pass (read-Holds n s h "admPass" i);
  }
