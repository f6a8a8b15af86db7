-- ===== src/Portal/Session.antt =====
-- Signing in, and how long a session lives.
use spool_gate.Base.{
  ℕ, ◌+◌, ◌≤◌, ◌<◌, ◌≡◌, refl, ap, ◌∙◌, Bool, true, false, not, ◌&&◌, ◌||◌, some, [], ◌∷◌, ◌++◌,
  Text, codes, text_eq_iff, is_empty, ltb, leb, arith, add32, u32_mod, IsU32, length,
}
use spool_gate.Portal.{Strings, Request, Portal, Env, set_cookie, no_store, location}
use spool_gate.Portal.Access.{session_ttl_ms, make_token, cookie_matches, authed}
use spool_gate.Portal.Handlers.{login_post, logout, credentials_match}
use spool_gate.Portal.Cookie.{all_hex, ends_value, make_token-IsHex, session_of-cookie}

gate_lem : (e m b : Bool) → e ≡ false → m ≡ true → (not (e || b) && m) ≡ not b
gate_lem false true true p q = refl
gate_lem false true false p q = refl
gate_lem true m b p q = cc
gate_lem false false b p q = cc

length-is_empty : (t : Text) → length t ≡ 32 → is_empty t ≡ false
length-is_empty [] l = absurd (omega arith)
length-is_empty (c ∷ t) l = refl

in_time : (t d : ℕ) → t + 900000 < 4294967296 → not (ltb (add32 t 900000) (t + d)) ≡ leb d 900000
in_time t d l = ground arith

past_wrap :
    (t now : ℕ)
    → t ≤ now
    → t < 4294967296
    → 4294967296 ≤ t + 900000
    → not (ltb (add32 t 900000) now) ≡ false
past_wrap t now l i w = ground arith

wrapped_before :
    (last idle : ℕ)
    → 4294967296 ≤ last + idle
    → idle ≤ 4294967296
    → last < 4294967296
    → not (ltb (last + 900000) (add32 last idle)) ≡ true
wrapped_before last idle w b l = ground arith

module _ (strings : Strings) where
  -- The request carries the cookie of the session `tok`, alone or before others.
  abbrev pub Carries : Request → Text → Text → Type 0
  Carries q tok rest =
      (q.cookie ≡ some (codes "SESSION=" ++ (tok ++ rest))) × (ends_value rest ≡ true)

  matches-cookie :
      (q : Request) (tok rest : Text)
      → all_hex tok ≡ true
      → Carries q tok rest
      → cookie_matches strings q.cookie tok ≡ true
  unfolding cookie_matches
  matches-cookie q tok rest h k =
      rw (k.0, session_of-cookie strings tok rest h k.1, cookie_matches)
        ((text_eq_iff tok tok).1 refl)

  -- Whether a request with the right cookie is let in, by the clock alone.
  authed-cookie :
      (env : Env) (q : Request) (p : Portal) (rest : Text)
      → all_hex p.session ≡ true
      → is_empty p.session ≡ false
      → Carries q p.session rest
      → authed strings env q p ≡ not (ltb p.session_expiry_ms env.now)
  unfolding authed
  authed-cookie env q p rest h n k =
      gate_lem (is_empty p.session) (cookie_matches strings q.cookie p.session)
        (ltb p.session_expiry_ms env.now) n (matches-cookie q p.session rest h k)

  -- The state after a successful sign-in.
  abbrev pub signed_in : Env → Portal → Portal
  signed_in env p = record p {
    session = make_token env.random;
    session_expiry_ms = add32 env.login_now session_ttl_ms;
  }

  pub login_post-signed_in :
      (env : Env) (q : Request) (p : Portal)
      → credentials_match q p ≡ true
      → ((login_post env q p).0 ≡ signed_in env p)
        × ((login_post env q p).1.headers
            ≡ set_cookie (make_token env.random) ∷ no_store ∷ location "/" ∷ [])
  unfolding login_post
  login_post-signed_in env q p m = rw m (refl, refl)

  authed-signed_in :
      (env later : Env) (next : Request) (p : Portal) (rest : Text)
      → Carries next (make_token env.random) rest
      → authed strings later next (signed_in env p)
        ≡ not (ltb (add32 env.login_now session_ttl_ms) later.now)
  authed-signed_in env later next p rest k =
      let (len, digits_only) = make_token-IsHex env.random in
      authed-cookie later next (signed_in env p) rest digits_only
        (length-is_empty (make_token env.random) len) k

  -- Signing in with the right name and password answers with a fresh token as the cookie; a request
  -- that brings the cookie back `d` ms later is let in for 15 minutes and no longer, if the clock of
  -- 32 bits does not wrap in that time.
  pub login_post-authed :
      (env later : Env) (q next : Request) (p : Portal) (rest : Text) (d : ℕ)
      → credentials_match q p ≡ true
      → Carries next (make_token env.random) rest
      → later.now ≡ env.login_now + d
      → env.login_now + session_ttl_ms < u32_mod
      → ((login_post env q p).1.headers
          ≡ set_cookie (make_token env.random) ∷ no_store ∷ location "/" ∷ [])
        × (authed strings later next (login_post env q p).0 ≡ leb d session_ttl_ms)
  login_post-authed env later q next p rest d m k t l =
      let (state, headers) = login_post-signed_in env q p m in
      (
        headers,
        ap (authed strings later next) state
            ∙ authed-signed_in env later next p rest k
            ∙ ap (λ n. not (ltb (add32 env.login_now session_ttl_ms) n)) t
            ∙ in_time env.login_now d l,
      )

  -- A sign-in in the last 15 minutes before the clock wraps is refused at once: its expiry wraps, and
  -- every reading of the clock until then is past it.
  pub login_before_wrap-refused :
      (env later : Env) (q next : Request) (p : Portal) (rest : Text)
      → credentials_match q p ≡ true
      → Carries next (make_token env.random) rest
      → env.login_now ≤ later.now
      → IsU32 env.login_now
      → u32_mod ≤ env.login_now + session_ttl_ms
      → authed strings later next (login_post env q p).0 ≡ false
  login_before_wrap-refused env later q next p rest m k t i l =
      ap (authed strings later next) (login_post-signed_in env q p m).0
      ∙ authed-signed_in env later next p rest k
      ∙ past_wrap env.login_now later.now t i l

  -- A session that is left idle across the wrap is let in again: 49 days after its last request, every
  -- reading of the clock that is not past the old expiry will do.
  idle_session-revives :
      (env : Env) (q : Request) (p : Portal) (rest : Text) (last idle : ℕ)
      → all_hex p.session ≡ true
      → is_empty p.session ≡ false
      → Carries q p.session rest
      → p.session_expiry_ms ≡ last + session_ttl_ms
      → env.now ≡ add32 last idle
      → IsU32 last
      → u32_mod ≤ last + idle
      → idle ≤ u32_mod
      → authed strings env q p ≡ true
  idle_session-revives env q p rest last idle h n k x t l w b =
      authed-cookie env q p rest h n k
      ∙ ap (λ e. not (ltb e env.now)) x
      ∙ ap (λ e. not (ltb (last + session_ttl_ms) e)) t
      ∙ wrapped_before last idle w b l

  -- Nobody is let in after a sign-out, whatever cookie they bring, until the next sign-in.
  pub logout-authed :
      (env : Env) (q : Request) (p : Portal) → authed strings env q (logout p).0 ≡ false
  unfolding authed logout
  logout-authed env q p = refl
