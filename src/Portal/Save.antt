-- ===== src/Portal/Save.antt =====
-- What a settings form does, from the request to the next boot.
use spool_gate.Base.{
  ◌≤◌, ◌<◌, ◌≡◌, ◌⊎◌, inl, inr, refl, Option-cases, Bool-cases, true, false, min, ℤ, pos, negsuc, ℕ,
  some, codes, text_eq, [], ◌∷◌, Text, is_empty, ltb, if◌then◌else◌, arith, length, Address, add32,
}
use spool_gate.Config.{Settings, AddressText}
use spool_gate.Portal.{
  Strings, Request, Portal, Response, FormError, saved_page, Env, arg, has_arg, uplink_ssid_empty,
  ap_ssid_empty, admin_user_empty, ap_ip_invalid, dns_invalid,
}
use spool_gate.Portal.Form.{
  clamp_byte, refused, accepted, check_passwords, check_addresses, check_form, replaced, apply_form,
  save_form, config_response, trimmed,
}

-- A credential that a form may leave blank: what the form carries, and the old one if that is nothing.
abbrev pub Taken : Text → Text → Text → Type 0
Taken sent old new =
    ((is_empty sent ≡ false) × (new ≡ sent)) ⊎ ((is_empty sent ≡ true) × (new ≡ old))

-- The passphrase of the access point: what the form carries if that is long enough for WPA2.
abbrev pub LongTaken : Text → Text → Text → Type 0
LongTaken sent old new = ((8 ≤ length sent) × (new ≡ sent)) ⊎ ((length sent < 8) × (new ≡ old))

-- The brightness: the number that was sent, brought into its byte.
abbrev pub Clamped : ℤ → ℕ → Type 0
Clamped (pos m) n = n ≡ min m 255
Clamped (negsuc m) n = n ≡ 0

clamp_byte-Clamped : (z : ℤ) → Clamped z (clamp_byte z)
unfolding clamp_byte
clamp_byte-Clamped (pos m) = ground arith
clamp_byte-Clamped (negsuc m) = refl

replaced-Taken : (sent old : Text) → Taken sent old (replaced old sent)
replaced-Taken [] old = inr (refl, refl)
replaced-Taken (c ∷ sent) old = inl (refl, ground arith)

LongTaken-if : (sent old : Text) → LongTaken sent old (if ltb (length sent) 8 then old else sent)
LongTaken-if sent old = ground arith

module _ (strings : Strings) (ips : AddressText) where
  check_passwords-result :
      (q : Request) (s : Settings) (a d : Address)
      → (check_passwords strings ips q s a d ≡ accepted a d)
        ⊎ ((e : FormError) × (check_passwords strings ips q s a d ≡ refused e))
  unfolding check_passwords
  check_passwords-result q s a d = ground arith

  -- A form that passes the checks: its names are not blank, its addresses parse, and the checks hand
  -- the addresses on.
  pub record Passes (q : Request) (s : Settings) (a d : Address) : Type 0 where
    pub passed : check_form strings ips q s ≡ accepted a d
    pub names :
        (is_empty (trimmed strings ips "uSsid" q) ≡ false)
        × (is_empty (trimmed strings ips "apSsid" q) ≡ false)
        × (is_empty (trimmed strings ips "admUser" q) ≡ false)
    pub addresses :
        (ips.from_string (arg "apIp" q) ≡ some a) × (ips.from_string (arg "dns" q) ≡ some d)

  check_addresses-result :
      (q : Request) (s : Settings)
      → ((a d : Address) × (check_addresses strings ips q s ≡ accepted a d)
          × (ips.from_string (arg "apIp" q) ≡ some a)
          × (ips.from_string (arg "dns" q) ≡ some d))
        ⊎ ((e : FormError) × (check_addresses strings ips q s ≡ refused e))
  unfolding check_addresses
  check_addresses-result q s = elim (Option-cases (ips.from_string (arg "apIp" q))) [
    | inl no_ip ↦ inr (ap_ip_invalid, simp (no_ip, check_addresses))
    | inr (a, ap_ip) ↦ elim (Option-cases (ips.from_string (arg "dns" q))) [
      | inl no_dns ↦ inr (dns_invalid, simp (ap_ip, no_dns, check_addresses))
      | inr (d, dns) ↦ elim (check_passwords-result q s a d) [
        | inl ok ↦ inl (a, d, simp (ap_ip, dns, ok, check_addresses), ap_ip, dns)
        | inr (e, bad) ↦ inr (e, simp (ap_ip, dns, bad, check_addresses))
      ]
    ]
  ]

  pub check_form-result :
      (q : Request) (s : Settings)
      → ((a d : Address) × Passes q s a d)
        ⊎ ((e : FormError) × (check_form strings ips q s ≡ refused e))
  unfolding check_form
  check_form-result q s = elim (Bool-cases (is_empty (trimmed strings ips "uSsid" q))) [
    | inl blank ↦ inr (uplink_ssid_empty, simp blank)
    | inr ssid ↦ elim (Bool-cases (is_empty (trimmed strings ips "apSsid" q))) [
      | inl blank ↦ inr (ap_ssid_empty, simp (ssid, blank))
      | inr ap_ssid ↦ elim (Bool-cases (is_empty (trimmed strings ips "admUser" q))) [
        | inl blank ↦ inr (admin_user_empty, simp (ssid, ap_ssid, blank))
        | inr user ↦ elim (check_addresses-result q s) [
          | inr (e, bad) ↦ inr (e, simp (ssid, ap_ssid, user, bad))
          | inl (a, d, ok, ap_ip, dns) ↦ inl (
            a,
            d,
            record {
              passed = simp (ssid, ap_ssid, user, ok);
              names = (ssid, ap_ssid, user);
              addresses = (ap_ip, dns);
            },
          )
        ]
      ]
    ]
  ]

  -- What a form `q` makes of the settings `old`: the names as they are sent, without white space around
  -- them, and not empty; the addresses that were sent; the security that was chosen, if any; the
  -- brightness that was sent, brought into its byte; and of each credential what was sent or else the old one.
  pub record IsTakenFrom (q : Request) (old n : Settings) : Type 0 where
    pub names :
        (n.uplink_ssid ≡ trimmed strings ips "uSsid" q)
        × (n.ap_ssid ≡ trimmed strings ips "apSsid" q)
        × (n.admin_user ≡ trimmed strings ips "admUser" q)
    pub names_set :
        (is_empty n.uplink_ssid ≡ false)
        × (is_empty n.ap_ssid ≡ false)
        × (is_empty n.admin_user ≡ false)
    pub addresses :
        (ips.from_string (arg "apIp" q) ≡ some n.ap_ip)
        × (ips.from_string (arg "dns" q) ≡ some n.dns)
    pub security : n.uplink_enterprise ≡ (
        if has_arg "uAuth" q then text_eq (arg "uAuth" q) (codes "ent") else old.uplink_enterprise)
    pub brightness : Clamped (strings.to_int (arg "ledBri" q)) n.led_brightness
    pub ap_pass_taken : LongTaken (arg "apPass" q) old.ap_pass n.ap_pass
    pub credentials :
        Taken (arg "uPass" q) old.uplink_pass n.uplink_pass
        × Taken (arg "eapId" q) old.eap_identity n.eap_identity
        × Taken (arg "eapUser" q) old.eap_username n.eap_username
        × Taken (arg "eapPass" q) old.eap_password n.eap_password
        × Taken (arg "admPass" q) old.admin_pass n.admin_pass

  apply_form-IsTakenFrom :
      (q : Request) (a d : Address) (s : Settings)
      → Passes q s a d
      → IsTakenFrom q s (apply_form strings ips q a d s)
  unfolding apply_form
  apply_form-IsTakenFrom q a d s k = record {
    names = (refl, refl, refl);
    names_set = k.names;
    addresses = k.addresses;
    security = refl;
    brightness = clamp_byte-Clamped (strings.to_int (arg "ledBri" q));
    ap_pass_taken = LongTaken-if (arg "apPass" q) s.ap_pass;
    credentials = (
      replaced-Taken (arg "uPass" q) s.uplink_pass,
      replaced-Taken (arg "eapId" q) s.eap_identity,
      replaced-Taken (arg "eapUser" q) s.eap_username,
      replaced-Taken (arg "eapPass" q) s.eap_password,
      replaced-Taken (arg "admPass" q) s.admin_pass,
    );
  }

  -- What a refused form leaves, and what an accepted one does.
  pub record IsRefused (p : Portal) (r : Portal × Response) : Type 0 where
    pub reason : FormError
    pub same : r.0 ≡ p
    pub answer : r.1 ≡ config_response p.settings (some reason)

  pub record IsSaved (env : Env) (q : Request) (p : Portal) (r : Portal × Response) : Type 0 where
    pub taken : IsTakenFrom q p.settings r.0.settings
    pub saved : r.1.saves ≡ r.0.settings ∷ []
    pub answer : r.1.body ≡ saved_page
    pub scheduled : r.0.reboot_at_ms ≡ add32 env.save_now 1500
    pub session_kept : (r.0.session ≡ p.session) × (r.0.session_expiry_ms ≡ p.session_expiry_ms)

  -- A refused form is answered with the settings page and the complaint, and leaves everything as it
  -- was. An accepted one replaces the settings, saves exactly the new ones, keeps the session, and
  -- schedules the reboot for 1.5 s later: the two SSIDs and the user name are those that were sent,
  -- trimmed and not empty; the addresses are those that were sent; the security is the one that was
  -- chosen, or the old one if none was; the brightness is the number that was sent, brought into 0 to 255; the access point's passphrase is
  -- the one that was sent if it has 8 characters, and the old one if not; and each other credential is
  -- what its own field carried, and the old one if that was empty. There is no third outcome.
  pub save_form_lem :
      (env : Env) (q : Request) (p : Portal)
      → IsRefused p (save_form strings ips env q p)
        ⊎ IsSaved env q p (save_form strings ips env q p)
  unfolding save_form
  save_form_lem env q p = elim (check_form-result q p.settings) [
    | inr (e, bad) ↦ inl (rw (bad, save_form) (record { reason = e; same = refl; answer = refl }))
    | inl (a, d, k) ↦ inr (
        rw (k.passed, save_form)
          (record {
            taken = apply_form-IsTakenFrom q a d p.settings k;
            saved = refl;
            answer = refl;
            scheduled = refl;
            session_kept = (refl, refl);
          }))
  ]
