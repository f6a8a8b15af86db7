-- ===== src/Portal/Handlers.antt =====
-- The other handlers of src/web/portal.cpp, its table of routes, and its part of the main loop.
use spool_gate.Base.{
  ℕ, Bool, true, false, not, ◌&&◌, Option, none, some, List, [], ◌∷◌, String, text_eq, ltb, ◌==◌,
  if◌then◌else◌, add32,
}
use spool_gate.Config.{AddressText}
use spool_gate.Logbuf
use spool_gate.Portal.{
  Strings, Request, Portal, Response, Body, Method, get, post, login_page, log_page, log_text,
  speed_page, json, nothing, no_store, location, set_cookie, clear_cookie, Env, arg,
}
use spool_gate.Portal.Access.{
  Handler, from_lan, make_token, is_authed, redirect, guard, forbidden, session_ttl_ms,
}
use spool_gate.Portal.Form.{handle_save, config_response}
use spool_gate.Portal.Speed.{speed_run}
use spool_gate.Portal.StatJson.{stat_json}

abbrev pub page : Body → Response
page b = record { status = 200; headers = no_store ∷ []; body = b; saves = []; lines = [] }

unfoldable pub send_login : Option String → Portal → Portal × Response
send_login error p = (p, page (login_page error))

unfoldable pub credentials_match : Request → Portal → Bool
credentials_match q p =
    text_eq (arg "u" q) p.settings.admin_user && text_eq (arg "p" q) p.settings.admin_pass

unfoldable pub login_post : Env → Request → Handler
login_post env q p =
    if credentials_match q p
    then (let token = make_token env.random in
        (
          record p { session = token; session_expiry_ms = add32 env.login_now session_ttl_ms },
          record {
            status = 302;
            headers = set_cookie token ∷ no_store ∷ location "/" ∷ [];
            body = nothing;
            saves = [];
            lines = [];
          },
        ))
    else send_login (some "Incorrect username or password.") p

unfoldable pub logout : Handler
logout p = (
  record p { session = [] },
  record {
    status = 302;
    headers = clear_cookie ∷ no_store ∷ location "/login" ∷ [];
    body = nothing;
    saves = [];
    lines = [];
  },
)

unfoldable pub root : Handler
root p = (p, config_response p.settings none)

unfoldable pub show_log_text : Env → Handler
show_log_text env p = (p, page (log_text (Logbuf.render env.log [])))

unfoldable pub show_stat : Env → Handler
show_stat env p = (p, page (json (stat_json env.vitals p)))

unfoldable pub show_page : Body → Handler
show_page b p = (p, page b)

module _ (strings : Strings) where
  -- A handler that asks `isAuthed` itself, behind a guard that does not.
  unfoldable pub login_get : Env → Request → Handler
  login_get env q p =
      let (ok, p') = is_authed strings env q p in
      if ok then (p', redirect "/") else send_login none p'

  unfoldable pub not_found : Env → Request → Handler
  not_found env q p =
      if not (from_lan q p)
      then (p, forbidden "Forbidden")
      else (let (ok, p') = is_authed strings env q p in
          (p', redirect (if ok then "/" else "/login")))

-- The handlers that `begin()` registers; the last is for `onNotFound`.
pub data Route : Type 0 where
  to_root to_login_get to_login_post to_save to_logout to_log to_log_text to_speed to_speed_down
        to_stat to_not_found :
      Route

abbrev pub routes : List (Method × String × Route)
routes =
    (get, "/", to_root)
    ∷ (get, "/login", to_login_get)
    ∷ (post, "/login", to_login_post)
    ∷ (post, "/save", to_save)
    ∷ (post, "/logout", to_logout)
    ∷ (get, "/log", to_log)
    ∷ (get, "/log.txt", to_log_text)
    ∷ (get, "/speed", to_speed)
    ∷ (get, "/speed/down", to_speed_down)
    ∷ (get, "/stat.json", to_stat)
    ∷ []

-- How the web server finds the handler of a request in the table: the server is not under src/, so
-- its choice is a parameter.
abbrev pub Dispatch : Type 0
Dispatch = List (Method × String × Route) → Request → Route

module _ (strings : Strings) (ips : AddressText) where
  unfoldable pub handle : Route → Env → Request → Handler
  handle to_root env q = guard strings true env q root
  handle to_login_get env q = guard strings false env q (login_get strings env q)
  handle to_login_post env q = guard strings false env q (login_post env q)
  handle to_save env q = handle_save strings ips env q
  handle to_logout env q = guard strings false env q logout
  handle to_log env q = guard strings true env q (show_page log_page)
  handle to_log_text env q = guard strings true env q (show_log_text env)
  handle to_speed env q = guard strings true env q (show_page speed_page)
  handle to_speed_down env q = guard strings true env q (speed_run strings env q)
  handle to_stat env q = guard strings false env q (show_stat env)
  handle to_not_found env q = not_found strings env q

  -- One request, from the table of routes to the response.
  unfoldable pub serve : Dispatch → Env → Request → Handler
  serve dispatch env q p = handle (dispatch routes q) env q p

-- `loop()` behind `server.handleClient()`: whether the board restarts.
unfoldable pub restart_due : ℕ → Portal → Bool
restart_due now p = not (p.reboot_at_ms == 0) && ltb p.reboot_at_ms now
