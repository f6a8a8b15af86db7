-- ===== src/Portal/Gate.antt =====
-- Who may do what: the guards of every route at once.
use spool_gate.Base.{◌≡◌, refl, Bool, true, false, [], if◌then◌else◌, arith}
use spool_gate.Config.{AddressText}
use spool_gate.Portal.{
  Strings, Request, Portal, Response, Body, config_page, saved_page, log_page, speed_page, log_text,
  filler, Env,
}
use spool_gate.Portal.Access.{from_lan, authed, is_authed, redirect, guard, Handler}
use spool_gate.Portal.Form.{handle_save, save_form}
use spool_gate.Portal.Handlers.{
  Route, to_root, to_login_get, to_login_post, to_save, to_logout, to_log, to_log_text, to_speed,
  to_speed_down, to_stat, to_not_found, handle, serve, Dispatch, routes, login_get, login_post,
  logout, root, not_found, show_page, show_stat, show_log_text, send_login,
}
use spool_gate.Portal.Speed.{speed_run}

-- What a response may show to anyone on the private network: nothing of the settings, of the log,
-- or of a speed test's stream.
abbrev pub is_public : Body → Bool
is_public (config_page s e) = false
is_public saved_page = false
is_public log_page = false
is_public speed_page = false
is_public (log_text t) = false
is_public (filler n) = false
is_public _ = true

pub record Harmless (p : Portal) (r : Portal × Response) : Type 0 where
  pub settings_kept : r.0.settings ≡ p.settings
  pub reboot_kept : r.0.reboot_at_ms ≡ p.reboot_at_ms
  pub figures_kept : (r.0.speed_bytes ≡ p.speed_bytes) × (r.0.speed_ms ≡ p.speed_ms)
  pub nothing_saved : r.1.saves ≡ []
  pub shows_public : is_public r.1.body ≡ true

module _ (strings : Strings) (ips : AddressText) where
  guard-off_lan :
      (auth : Bool) (env : Env) (q : Request) (h : Handler) (p : Portal)
      → from_lan q p ≡ false
      → ((guard strings auth env q h p).0 ≡ p) × ((guard strings auth env q h p).1.status ≡ 403)
  unfolding guard
  guard-off_lan auth env q h p off = rw off (refl, refl)

  handle-off_lan :
      (r : Route) (env : Env) (q : Request) (p : Portal)
      → from_lan q p ≡ false
      → ((handle strings ips r env q p).0 ≡ p) × ((handle strings ips r env q p).1.status ≡ 403)
  unfolding handle not_found handle_save
  handle-off_lan to_root env q p off = guard-off_lan true env q root p off
  handle-off_lan to_login_get env q p off =
      guard-off_lan false env q (login_get strings env q) p off
  handle-off_lan to_login_post env q p off = guard-off_lan false env q (login_post env q) p off
  handle-off_lan to_save env q p off = guard-off_lan true env q (save_form strings ips env q) p off
  handle-off_lan to_logout env q p off = guard-off_lan false env q logout p off
  handle-off_lan to_log env q p off = guard-off_lan true env q (show_page log_page) p off
  handle-off_lan to_log_text env q p off = guard-off_lan true env q (show_log_text env) p off
  handle-off_lan to_speed env q p off = guard-off_lan true env q (show_page speed_page) p off
  handle-off_lan to_speed_down env q p off =
      guard-off_lan true env q (speed_run strings env q) p off
  handle-off_lan to_stat env q p off = guard-off_lan false env q (show_stat env) p off
  handle-off_lan to_not_found env q p off = rw off (refl, refl)

  -- Whatever the request is, whatever handler it reaches, and whatever cookie it carries, one that does not come from the /24 of
  -- the access point gets a 403, and changes nothing.
  pub serve_off_lan :
      (dispatch : Dispatch) (env : Env) (q : Request) (p : Portal)
      → from_lan q p ≡ false
      → ((serve strings ips dispatch env q p).0 ≡ p)
        × ((serve strings ips dispatch env q p).1.status ≡ 403)
  unfolding serve
  serve_off_lan dispatch env q p off = handle-off_lan (dispatch routes q) env q p off

  guard-Harmless :
      (env : Env) (q : Request) (h : Handler) (p : Portal)
      → authed strings env q p ≡ false
      → Harmless p (guard strings true env q h p)
  unfolding guard is_authed redirect
  guard-Harmless env q h p no_session = rw no_session (ground arith)

  -- Behind a guard without a session, a handler that is harmless itself.
  open-Harmless :
      (env : Env) (q : Request) (h : Handler) (p : Portal)
      → Harmless p (h p)
      → Harmless p (guard strings false env q h p)
  unfolding guard
  open-Harmless env q h p k = ground arith

  is_authed-Harmless :
      (env : Env) (q : Request) (p : Portal) (yes_page no_page : Response)
      → (yes_page.saves ≡ []) × (is_public yes_page.body ≡ true)
      → (no_page.saves ≡ []) × (is_public no_page.body ≡ true)
      → let (seen, p') = is_authed strings env q p in
        Harmless p (p', if seen then yes_page else no_page)
  unfolding is_authed
  is_authed-Harmless env q p yes_page no_page y n = ground arith

  handle-Harmless :
      (r : Route) (env : Env) (q : Request) (p : Portal)
      → authed strings env q p ≡ false
      → Harmless p (handle strings ips r env q p)
  unfolding handle handle_save
  handle-Harmless to_root env q p n = guard-Harmless env q root p n
  handle-Harmless to_save env q p n = guard-Harmless env q (save_form strings ips env q) p n
  handle-Harmless to_log env q p n = guard-Harmless env q (show_page log_page) p n
  handle-Harmless to_log_text env q p n = guard-Harmless env q (show_log_text env) p n
  handle-Harmless to_speed env q p n = guard-Harmless env q (show_page speed_page) p n
  handle-Harmless to_speed_down env q p n = guard-Harmless env q (speed_run strings env q) p n
  handle-Harmless to_login_get env q p n =
      open-Harmless env q (login_get strings env q) p
        (unfold login_get is_authed redirect send_login in ground arith)
  handle-Harmless to_login_post env q p n =
      open-Harmless env q (login_post env q) p (unfold login_post send_login in ground arith)
  handle-Harmless to_logout env q p n = open-Harmless env q logout p (unfold logout in ground arith)
  handle-Harmless to_stat env q p n =
      open-Harmless env q (show_stat env) p (unfold show_stat in ground arith)
  handle-Harmless to_not_found env q p n = unfold not_found is_authed redirect in ground arith

  -- Without a live session no request changes the settings, saves them, schedules a reboot or touches
  -- the figures of the speed test, and none is shown the settings, the log or the test's stream.
  pub serve-Harmless :
      (dispatch : Dispatch) (env : Env) (q : Request) (p : Portal)
      → authed strings env q p ≡ false
      → Harmless p (serve strings ips dispatch env q p)
  unfolding serve
  serve-Harmless dispatch env q p n = handle-Harmless (dispatch routes q) env q p n
