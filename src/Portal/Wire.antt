-- ===== src/Portal/Wire.antt =====
-- What src/web/portal.cpp hands to `server.sendHeader` and `server.send` for a header and for a body, and a
-- browser that keeps the cookie, which does not come from the code.
use mathlib.Core.List.{append-nil}
use spool_gate.Base.{
  ℕ, ◌+◌, ◌<◌, ◌≡◌, refl, ap, ◌∙◌, sym, Bool, true, false, Option, none, some, List, [], ◌∷◌, ◌++◌,
  Text, String, codes, leb, ◌==◌, if◌then◌else◌, arith, u32_mod,
}
use text.Mathlib.Text.{◌==◌ as str_eq}
use spool_gate.Portal.{
  Strings, Request, Portal, Env, Header, no_store, location, set_cookie, clear_cookie, Body, plain,
  login_page, config_page, saved_page, log_page, speed_page, log_text, json, filler, nothing,
  first_index, suc_option,
}
use spool_gate.Portal.Access.{session_ttl_ms, make_token, authed}
use spool_gate.Portal.Handlers.{login_post, logout, credentials_match}
use spool_gate.Portal.Cookie.{all_hex, make_token-IsHex}
use spool_gate.Portal.Session.{login_post-authed, login_post-signed_in}

-- The fields of a header, `noStore` with its three.
unfoldable pub header_fields : Header → List (String × Text)
header_fields no_store =
    ("Cache-Control", codes "no-store, no-cache, must-revalidate, max-age=0")
    ∷ ("Pragma", codes "no-cache")
    ∷ ("Expires", codes "0")
    ∷ []
header_fields (location path) = ("Location", codes path) ∷ []
header_fields (set_cookie token) =
    ("Set-Cookie", codes "SESSION=" ++ (token ++ codes "; Path=/; HttpOnly; SameSite=Strict")) ∷ []
header_fields clear_cookie = ("Set-Cookie", codes "SESSION=; Path=/; Max-Age=0") ∷ []

unfoldable pub fields : List Header → List (String × Text)
fields [] = []
fields (h ∷ hs) = header_fields h ++ fields hs

unfoldable pub content_type : Body → String
content_type (plain message) = "text/plain"
content_type (login_page error) = "text/html"
content_type (config_page s error) = "text/html"
content_type saved_page = "text/html"
content_type log_page = "text/html"
content_type speed_page = "text/html"
content_type (log_text t) = "text/plain"
content_type (json t) = "application/json"
content_type (filler n) = "application/octet-stream"
content_type nothing = "text/plain"

-- The name and the value of a cookie: what stands before its first semicolon.
unfoldable pub cookie_pair : Text → Text
cookie_pair [] = []
cookie_pair (c ∷ t) = let rest = cookie_pair t in if c == b';' then [] else c ∷ rest

abbrev is_found : Option ℕ → Bool
is_found none = false
is_found (some i) = true

-- Whether the cookie is to be thrown away.
unfoldable pub is_removed : Text → Bool
is_removed t = is_found (first_index (codes "; Max-Age=0") t)

-- The cookie that the browser sends from a response on, from the one that it had.
unfoldable pub jar_after : Option Text → List (String × Text) → Option Text
jar_after jar [] = jar
jar_after jar ((name, v) ∷ rest) =
    jar_after
      (if str_eq name "Set-Cookie"
        then (if is_removed v then none else some (cookie_pair v))
        else jar)
      rest

abbrev attributes : Text
attributes = codes "; Path=/; HttpOnly; SameSite=Strict"

cookie_pair-hex : (t rest : Text) → all_hex t ≡ true → cookie_pair (t ++ b';' ∷ rest) ≡ t
unfolding cookie_pair
cookie_pair-hex [] rest h = refl
cookie_pair-hex (c ∷ t) rest h = ground (arith, cookie_pair-hex t rest)

not_removed :
    (t : Text) → all_hex t ≡ true → first_index (codes "; Max-Age=0") (t ++ attributes) ≡ none
not_removed [] h = refl
not_removed (c ∷ t) h = ground (arith, not_removed t)

abbrev session_value : Text → Text
session_value token = codes "SESSION=" ++ (token ++ attributes)

session_value-removed :
    (token : Text) → all_hex token ≡ true → is_removed (session_value token) ≡ false
unfolding is_removed
session_value-removed token h =
    ap
      (λ o. is_found (
        suc_option (
          suc_option
            (suc_option (suc_option (suc_option (suc_option (suc_option (suc_option o)))))))))
      (not_removed token h)

session_value-pair :
    (token : Text)
    → all_hex token ≡ true
    → cookie_pair (session_value token) ≡ codes "SESSION=" ++ token
unfolding cookie_pair
session_value-pair token h = ap (λ t. codes "SESSION=" ++ t) (cookie_pair-hex token _ h)

-- The cookie that a sign-in leaves with the browser.
jar_after-login :
    (token : Text) (jar : Option Text)
    → all_hex token ≡ true
    → jar_after jar (fields (set_cookie token ∷ no_store ∷ location "/" ∷ []))
      ≡ some (codes "SESSION=" ++ token)
unfolding jar_after fields header_fields
jar_after-login token jar h = rw (session_value-removed token h, session_value-pair token h) refl

module _ (strings : Strings) where
  -- A browser that signs in with the right name and password, and sends with a request `d` ms later the
  -- cookie that it kept from the response, is let in for 15 minutes and no longer, whatever cookie it
  -- had before, if the clock of 32 bits does not wrap in that time; and a sign-out leaves it without a
  -- cookie.
  pub login_post-jar_after :
      (env later : Env) (q next : Request) (p signed_in : Portal) (jar : Option Text) (d : ℕ)
      → credentials_match q p ≡ true
      → next.cookie ≡ jar_after jar (fields ((login_post env q p).1.headers))
      → later.now ≡ env.login_now + d
      → env.login_now + session_ttl_ms < u32_mod
      → (authed strings later next (login_post env q p).0 ≡ leb d session_ttl_ms)
        × (jar_after jar (fields ((logout signed_in).1.headers)) ≡ none)
  unfolding logout jar_after fields header_fields is_removed
  login_post-jar_after env later q next p signed_in jar d m k t l =
      let token = make_token env.random in
      let digits_only = (make_token-IsHex env.random).1 in
      let headers = (login_post-signed_in strings env q p m).1 in
      let kept =
        k
        ∙ (ap (λ hs. jar_after jar (fields hs)) headers
            ∙ (jar_after-login token jar digits_only
                ∙ ap (λ u. some (codes "SESSION=" ++ u)) (sym (append-nil token)))) in
      ((login_post-authed strings env later q next p [] d m (kept, refl) t l).1, refl)
