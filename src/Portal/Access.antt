-- ===== src/Portal/Access.antt =====
-- Access control of src/web/portal.cpp: `fromLan`, `makeToken`, `isAuthed`, `redirect` and `guard`.
use Prim.Native.Nat.{bit_and}
use spool_gate.Base.{
  ℕ, zero, suc, ◌+◌, Bool, true, false, not, ◌&&◌, ◌||◌, Option, none, some, [], ◌∷◌, Text, String,
  codes, text_eq, is_empty, ltb, ◌==◌, if◌then◌else◌, add32, take, drop, get_or,
}
use spool_gate.Portal.{Strings, Request, Portal, Response, plain, nothing, no_store, location, Env}

abbrev pub session_ttl_ms : ℕ
session_ttl_ms = 900000

unfoldable pub from_lan : Request → Portal → Bool
from_lan q p =
    q.remote.a == p.settings.ap_ip.a
    && (q.remote.b == p.settings.ap_ip.b && q.remote.c == p.settings.ap_ip.c)

abbrev pub hex : Text
hex = codes "0123456789abcdef"

-- The characters of a token from the `i`-th on, with those that are left.
unfoldable pub token_from : (ℕ → ℕ) → ℕ → ℕ → Text
token_from random i zero = []
token_from random i (suc left) =
    get_or hex (bit_and (random i) 0x0F) 0 ∷ token_from random (i + 1) left

unfoldable pub make_token : (ℕ → ℕ) → Text
make_token random = token_from random 0 32

module _ (strings : Strings) where
  -- `tok.substring(0, semi)` if there is a semicolon.
  unfoldable pub cut_semi : Text → Text
  cut_semi tok = elim (strings.index_of tok (codes ";")) [ none ↦ tok | some semi ↦ take semi tok ]

  -- The value that `isAuthed` reads from a cookie header.
  unfoldable pub session_of : Text → Option Text
  session_of cookie = elim (strings.index_of cookie (codes "SESSION=")) [
    | none ↦ none
    | some i ↦ some (strings.trim (cut_semi (drop (i + 8) cookie)))
  ]

  unfoldable pub cookie_matches : Option Text → Text → Bool
  cookie_matches none session = false
  cookie_matches (some cookie) session = elim (session_of cookie) [
    | none ↦ false
    | some tok ↦ text_eq tok session
  ]

  -- What `isAuthed` returns.
  unfoldable pub authed : Env → Request → Portal → Bool
  authed env q p =
      not (is_empty p.session || ltb p.session_expiry_ms env.now)
      && cookie_matches q.cookie p.session

  -- `isAuthed()`: a request that passes renews the session.
  unfoldable pub is_authed : Env → Request → Portal → Bool × Portal
  is_authed env q p =
      if authed env q p
      then (true, record p { session_expiry_ms = add32 env.renew_now session_ttl_ms })
      else (false, p)

unfoldable pub redirect : String → Response
redirect path = record {
  status = 302;
  headers = no_store ∷ location path ∷ [];
  body = nothing;
  saves = [];
  lines = [];
}

abbrev pub forbidden : String → Response
forbidden message = record {
  status = 403;
  headers = [];
  body = plain message;
  saves = [];
  lines = [];
}

abbrev pub off_lan_message : String
off_lan_message = "Forbidden: admin portal is only reachable from the private network."

-- A handler: it is run if the guard lets the request through.
abbrev pub Handler : Type 0
Handler = Portal → Portal × Response

module _ (strings : Strings) where
  -- `if (!guard(requireAuth)) return;` in front of a handler.
  unfoldable pub guard : Bool → Env → Request → Handler → Handler
  guard require_auth env q handler p =
      if not (from_lan q p)
      then (p, forbidden off_lan_message)
      else (if require_auth
          then (let (ok, p') = is_authed strings env q p in
              if ok then handler p' else (p', redirect "/login"))
          else handler p)
