-- ===== src/Tests/Admin.antt =====
-- The portal over a concrete web server's text functions, for concrete requests.
use text.Mathlib.Text.{◌==◌ as str_eq}
use spool_gate.Base.{
  ℕ, ◌+◌, ◌≡◌, ◌⊎◌, refl, true, false, ◌&&◌, if◌then◌else◌, Option, none, some, List, [], ◌∷◌, ◌++◌,
  codes, Text, Address, arith, ltb, leb, text_eq, replicate, Bool,
}
use spool_gate.Config as Config
use spool_gate.Logbuf.{blank}
use spool_gate.Portal.{Method, get, Request, Portal, Env, post, saved_page}
use spool_gate.Portal.Access.{from_lan, authed, cookie_matches, session_ttl_ms, make_token}
use spool_gate.Portal.Form.{save_form}
use spool_gate.Portal.Handlers.{
  Dispatch, to_not_found, serve, login_post, logout, credentials_match,
}
use spool_gate.Portal.Gate.{serve_off_lan, serve-Harmless, Harmless}
use spool_gate.Portal.Save.{save_form_lem, IsRefused, IsSaved}
use spool_gate.Portal.Persist.{InStep}
use spool_gate.Portal.Wire.{fields, jar_after, login_post-jar_after}
use spool_gate.Portal.Session.{login_before_wrap-refused}
use spool_gate.Portal.Speed.{bytes_sent, send_from, goes_on, bytes_sent-Stops, Stops}
use spool_gate.Config.Flash.{save-Holds}
use spool_gate.Tests.Form.{strings, vitals}
use spool_gate.Tests.Flash.{flash, octets, settings, settings-HasAddresses, blank_flash}

abbrev is_method : Method → Method → Bool
is_method get get = true
is_method post post = true
is_method _ _ = false

-- The first entry with the request's method and path.
abbrev pub dispatch : Dispatch
dispatch [] q = to_not_found
dispatch ((m, path, r) ∷ rest) q =
    let later = dispatch rest q in if is_method m q.method && str_eq path q.path then r else later

abbrev pub portal : Portal
portal = record {
  settings = settings;
  session = replicate 32 b'a';
  session_expiry_ms = 901000;
  reboot_at_ms = 0;
  speed_bytes = 0;
  speed_ms = 0;
}

abbrev pub env : ℕ → Env
env now = record {
  now = now;
  renew_now = now;
  login_now = now;
  save_now = now;
  line_now = now;
  speed_now = now;
  block_now = λ k. now + k;
  random = λ i. i + 250;
  memory = true;
  log = blank;
  vitals = vitals;
}

abbrev pub from : Address → Option Text → Request
from remote cookie = record {
  remote = remote;
  method = post;
  path = "/save";
  args =
      ("uSsid", codes " home ")
      ∷ ("apSsid", codes "printers")
      ∷ ("admUser", codes "admin")
      ∷ ("apIp", 10 ∷ 1 ∷ 2 ∷ 3 ∷ [])
      ∷ ("dns", 1 ∷ 1 ∷ 1 ∷ 1 ∷ [])
      ∷ ("apPass", codes "longenough")
      ∷ ("ledBri", codes "300")
      ∷ [];
  cookie = cookie;
  connected = λ k. ltb k 3;
}

abbrev outside : Address
outside = record { a = 10; b = 1; c = 9; d = 20 }

abbrev pub inside : Address
inside = record { a = 10; b = 1; c = 2; d = 20 }

abbrev pub with_cookie : Text → Request
with_cookie token = from inside (some (codes "SESSION=" ++ (token ++ codes "; theme=dark")))

is_outside : from_lan (from outside none) portal ≡ false
unfolding from_lan
is_outside = refl

serve_off_lan_example :
    ((serve strings octets dispatch (env 1000) (from outside none) portal).0 ≡ portal)
    × ((serve strings octets dispatch (env 1000) (from outside none) portal).1.status ≡ 403)
serve_off_lan_example =
    serve_off_lan strings octets dispatch (env 1000) (from outside none) portal is_outside

no_session : authed strings (env 1000) (from inside none) portal ≡ false
unfolding authed cookie_matches
no_session = refl

serve-Harmless_example :
    Harmless portal (serve strings octets dispatch (env 1000) (from inside none) portal)
serve-Harmless_example =
    serve-Harmless strings octets dispatch (env 1000) (from inside none) portal no_session

-- The form above is accepted, and so changes the settings.
save_form_saves : (save_form strings octets (env 1000) (with_cookie []) portal).1.body ≡ saved_page
unfolding save_form text_eq
save_form_saves = refl

save_form_example :
    IsRefused strings octets portal (save_form strings octets (env 1000) (with_cookie []) portal)
    ⊎ IsSaved strings octets
        (env 1000)
        (with_cookie [])
        portal
        (save_form strings octets (env 1000) (with_cookie []) portal)
save_form_example = save_form_lem strings octets (env 1000) (with_cookie []) portal

pub portal-InStep :
    InStep strings octets flash (portal, Config.save flash octets settings blank_flash)
unfolding InStep
portal-InStep = (settings-HasAddresses, save-Holds flash octets settings blank_flash)

abbrev requests : List (Env × Request)
requests =
    (env 1000, from outside none)
    ∷ (env 2000, with_cookie (replicate 32 b'a'))
    ∷ (env 3000, from inside none)
    ∷ []

abbrev sign_in : Request
sign_in = record {
  remote = inside;
  method = post;
  path = "/login";
  args = ("u", codes "admin") ∷ ("p", codes "printers1") ∷ [];
  cookie = none;
  connected = λ k. true;
}

sign_in_matches : credentials_match sign_in portal ≡ true
unfolding credentials_match text_eq
sign_in_matches = refl

abbrev token : Text
token = make_token (env 1000).random

-- A request with the cookie that the browser kept from the answer to the sign-in.
abbrev signed : Request
signed = record (with_cookie token) {
  cookie = jar_after none (fields ((login_post (env 1000) sign_in portal).1.headers));
}

login_post-jar_after_example :
    (authed strings (env 901000) signed (login_post (env 1000) sign_in portal).0
      ≡ leb 900000 session_ttl_ms)
    × (jar_after none (fields ((logout portal).1.headers)) ≡ none)
login_post-jar_after_example =
    login_post-jar_after strings (env 1000) (env 901000) sign_in signed portal portal none 900000
      sign_in_matches refl refl (omega arith)

login_before_wrap-refused_example :
    authed strings
      (env 4294967001)
      (with_cookie token)
      (login_post (env 4294967000) sign_in portal).0
    ≡ false
login_before_wrap-refused_example =
    login_before_wrap-refused strings (env 4294967000) (env 4294967001) sign_in (with_cookie token)
      portal (codes "; theme=dark") sign_in_matches (refl, refl) (omega arith) (omega arith)
      (omega arith)

bytes_sent_example :
    Stops (env 1000) (from inside none) 256 (bytes_sent (env 1000) (from inside none) 1)
bytes_sent_example = bytes_sent-Stops (env 1000) (from inside none) 1 (omega arith)

-- The client leaves after three blocks.
bytes_sent_run : bytes_sent (env 1000) (from inside none) 1 ≡ some 12288
unfolding bytes_sent send_from goes_on
bytes_sent_run = refl
