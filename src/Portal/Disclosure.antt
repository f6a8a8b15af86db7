-- ===== src/Portal/Disclosure.antt =====
-- What the responses of the portal say of the stored passwords: two portals that differ in nothing
-- else, side by side.
use spool_gate.Base.{
  ◌≡◌, refl, Bool, true, false, not, Option, none, some, Text, length, if◌then◌else◌, Bool-cases,
  inl, inr, add32,
}
use spool_gate.Config.{Settings, AddressText}
use spool_gate.Portal.{Strings, Request, Portal, Response, FormError, Env, log_page, speed_page}
use spool_gate.Portal.Access.{
  forbidden, off_lan_message, from_lan, authed, guard, is_authed, redirect, Handler, session_ttl_ms,
}
use spool_gate.Portal.Form.{
  check_passwords, check_addresses, check_form, save_form, handle_save, config_response,
}
use spool_gate.Portal.Save.{check_form-result}
use spool_gate.Portal.Speed.{speed_run}
use spool_gate.Portal.StatJson.{stat_json, speed_json}
use spool_gate.Portal.Page.{Status}
use spool_gate.Portal.ConfigPage.{page_text-secrets}
use spool_gate.Portal.Render.{body_text}
use spool_gate.Portal.Handlers.{
  Route, to_root, to_login_get, to_login_post, to_save, to_logout, to_log, to_log_text, to_speed,
  to_speed_down, to_stat, to_not_found, handle, login_get, logout, root, not_found, show_page,
  show_stat, show_log_text, send_login,
}

-- Passwords to stand in for the stored ones.
pub record Passwords : Type 0 where
  pub uplink_pass : Text
  pub eap_password : Text
  pub ap_pass : Text
  pub admin_pass : Text

abbrev pub with_passwords : Passwords → Settings → Settings
with_passwords k s = record s {
  uplink_pass = k.uplink_pass;
  eap_password = k.eap_password;
  ap_pass = k.ap_pass;
  admin_pass = k.admin_pass;
}

abbrev pub swap : Passwords → Portal → Portal
swap k p = record p { settings = with_passwords k p.settings }

-- The two passwords of the uplink are as long as the stored ones.
pub record HasLengths (k : Passwords) (s : Settings) : Type 0 where
  pub psk_length : length k.uplink_pass ≡ length s.uplink_pass
  pub eap_length : length k.eap_password ≡ length s.eap_password

module _ (strings : Strings) (ips : AddressText) (st : Status) (k : Passwords) where
  -- The two responses are the same to the client.
  pub record Agree (r r' : Portal × Response) : Type 0 where
    pub same_status : r'.1.status ≡ r.1.status
    pub same_headers : r'.1.headers ≡ r.1.headers
    pub same_body : body_text ips st r'.1.body ≡ body_text ips st r.1.body

  same : (p p' : Portal) (r : Response) → Agree (p, r) (p', r)
  same p p' r = record { same_status = refl; same_headers = refl; same_body = refl }

  choice-Agree :
      (b : Bool) (r s r' s' : Portal × Response)
      → Agree r r'
      → Agree s s'
      → Agree (if b then r else s) (if b then r' else s')
  choice-Agree true r s r' s' g h = g
  choice-Agree false r s r' s' g h = h

  -- A handler that answers the same to both.
  abbrev Discreet : Handler → Type 0
  Discreet h = (p : Portal) → HasLengths k p.settings → Agree (h p) (h (swap k p))

  authed_part :
      (env : Env) (q : Request) (h : Handler) (p : Portal)
      → Discreet h
      → HasLengths k p.settings
      → let (ok, p₁) = is_authed strings env q p in
        let (ok', p₁') = is_authed strings env q (swap k p) in
        Agree
          (if ok then h p₁ else (p₁, redirect "/login"))
          (if ok' then h p₁' else (p₁', redirect "/login"))
  unfolding is_authed authed
  authed_part env q h p d l = elim (Bool-cases (authed strings env q p)) [
    | inl live ↦ rw live (d (record p { session_expiry_ms = add32 env.renew_now session_ttl_ms }) l)
    | inr dead ↦ rw dead (same p (swap k p) (redirect "/login"))
  ]

  guard-Agree :
      (auth : Bool) (env : Env) (q : Request) (h : Handler)
      → Discreet h
      → Discreet (guard strings auth env q h)
  unfolding guard from_lan
  guard-Agree false env q h d p l =
      choice-Agree (not (from_lan q p)) (p, forbidden off_lan_message) (h p)
        (swap k p, forbidden off_lan_message) (h (swap k p)) (same p (swap k p) _) (d p l)
  guard-Agree true env q h d p l =
      choice-Agree (not (from_lan q p)) (p, forbidden off_lan_message) _
        (swap k p, forbidden off_lan_message) _ (same p (swap k p) _) (authed_part env q h p d l)

  config-Agree :
      (p : Portal) (e : Option FormError)
      → HasLengths k p.settings
      → Agree (p, config_response p.settings e) (swap k p, config_response (swap k p).settings e)
  unfolding body_text
  config-Agree p e l = record {
    same_status = refl;
    same_headers = refl;
    same_body =
        page_text-secrets ips st p.settings e k.uplink_pass k.eap_password k.ap_pass k.admin_pass
          l.psk_length l.eap_length;
  }

  check_form-passwords :
      (q : Request) (s : Settings)
      → check_form strings ips q (with_passwords k s) ≡ check_form strings ips q s
  unfolding check_form check_addresses check_passwords
  check_form-passwords q s = refl

  save_form-Discreet : (env : Env) (q : Request) → Discreet (save_form strings ips env q)
  unfolding save_form
  save_form-Discreet env q p l = elim (check_form-result strings ips q p.settings) [
    | inr (e, bad) ↦
        rw (check_form-passwords q p.settings, bad, save_form) (config-Agree p (some e) l)
    | inl (a, d, passes) ↦
        rw (check_form-passwords q p.settings, passes.passed, save_form)
          (record { same_status = refl; same_headers = refl; same_body = refl })
  ]

  login_get-Discreet : (env : Env) (q : Request) → Discreet (login_get strings env q)
  unfolding login_get send_login is_authed authed
  login_get-Discreet env q p l = elim (Bool-cases (authed strings env q p)) [
    | inl live ↦ rw live (same _ _ (redirect "/"))
    | inr dead ↦ rw dead (same _ _ _)
  ]

  not_found-Discreet : (env : Env) (q : Request) → Discreet (not_found strings env q)
  unfolding not_found is_authed authed from_lan
  not_found-Discreet env q p l = elim (Bool-cases (authed strings env q p)) [
    | inl live ↦ rw live (choice-Agree (not (from_lan q p)) _ _ _ _ (same _ _ _) (same _ _ _))
    | inr dead ↦ rw dead (choice-Agree (not (from_lan q p)) _ _ _ _ (same _ _ _) (same _ _ _))
  ]

  speed_run-Discreet : (env : Env) (q : Request) → Discreet (speed_run strings env q)
  unfolding speed_run
  speed_run-Discreet env q p l = choice-Agree (not env.memory) _ _ _ _ (same _ _ _) (same _ _ _)

  abbrev is_login_post : Route → Bool
  is_login_post to_login_post = true
  is_login_post _ = false

  -- No request finds a stored password out, but for the sign-in, which compares one: the response to
  -- any request that reaches another handler, from whatever address, with or without a session, with a
  -- form that is accepted or refused, is the same, status, headers and bytes, for a router whose four
  -- passwords are others, as long as the two of the uplink have the same lengths and the log is the same.
  pub handle-Agree :
      (r : Route) (env : Env) (q : Request) (p : Portal)
      → is_login_post r ≡ false
      → HasLengths k p.settings
      → Agree (handle strings ips r env q p) (handle strings ips r env q (swap k p))
  unfolding handle handle_save root show_page show_stat show_log_text logout stat_json speed_json
  handle-Agree to_root env q p n l = guard-Agree true env q root (λ p l. config-Agree p none l) p l
  handle-Agree to_login_get env q p n l =
      guard-Agree false env q (login_get strings env q) (login_get-Discreet env q) p l
  handle-Agree to_login_post env q p n l = absurd (cc n)
  handle-Agree to_save env q p n l =
      guard-Agree true env q (save_form strings ips env q) (save_form-Discreet env q) p l
  handle-Agree to_logout env q p n l = guard-Agree false env q logout (λ p l. same _ _ _) p l
  handle-Agree to_log env q p n l =
      guard-Agree true env q (show_page log_page) (λ p l. same _ _ _) p l
  handle-Agree to_log_text env q p n l =
      guard-Agree true env q (show_log_text env) (λ p l. same _ _ _) p l
  handle-Agree to_speed env q p n l =
      guard-Agree true env q (show_page speed_page) (λ p l. same _ _ _) p l
  handle-Agree to_speed_down env q p n l =
      guard-Agree true env q (speed_run strings env q) (speed_run-Discreet env q) p l
  handle-Agree to_stat env q p n l = guard-Agree false env q (show_stat env) (λ p l. same _ _ _) p l
  handle-Agree to_not_found env q p n l = not_found-Discreet env q p l
