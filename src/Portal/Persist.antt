-- ===== src/Portal/Persist.antt =====
-- The portal over the flash: what requests leave there, and what the next boot makes of it.
use spool_gate.Base.{
  ◌≡◌, inl, inr, refl, sym, Bool-cases, Bool, true, false, not, none, List, [], ◌∷◌, if◌then◌else◌,
  arith, Address, add32,
}
use mathlib.Core.Path.{subst}
use spool_gate.Config.{Settings, Secrets, AddressText, save, begin}
use spool_gate.Config.Nvs.{Store}
use spool_gate.Config.Flash.{HasAddresses, Holds, save-Holds}
use spool_gate.Config.Reboot.{begin-Holds}
use spool_gate.Portal.{Strings, Request, Portal, Response, Env, arg, log_page, speed_page}
use spool_gate.Portal.Access.{
  forbidden, off_lan_message, session_ttl_ms, from_lan, authed, guard, is_authed, redirect, Handler,
}
use spool_gate.Portal.Form.{apply_form, save_form, handle_save}
use spool_gate.Portal.Save.{check_form-result, Passes}
use spool_gate.Portal.Speed.{speed_run}
use spool_gate.Portal.Handlers.{
  Route, to_root, to_login_get, to_login_post, to_save, to_logout, to_log, to_log_text, to_speed,
  to_speed_down, to_stat, to_not_found, handle, serve, Dispatch, routes, login_get, login_post,
  logout, root, not_found, show_page, show_stat, show_log_text, send_login,
}

module _ (strings : Strings) (ips : AddressText) (nvs : Store) where
  open nvs use {State}

  unfoldable pub save_all : List Settings → State → State
  save_all [] s = s
  save_all (n ∷ ns) s = save_all ns (save nvs ips n s)

  -- A request, with the calls of `config::save` carried out.
  unfoldable pub serve_stored : Dispatch → Env → Request → Portal × State → Portal × State
  serve_stored dispatch env q (p, s) =
      let r = serve strings ips dispatch env q p in (r.0, save_all r.1.saves s)

  unfoldable pub serve_each : Dispatch → List (Env × Request) → Portal × State → Portal × State
  serve_each dispatch [] ps = ps
  serve_each dispatch ((env, q) ∷ rest) ps =
      serve_each dispatch rest (serve_stored dispatch env q ps)

  -- The flash holds the settings that the router runs on.
  unfoldable pub InStep : Portal × State → Type 0
  InStep (p, s) = HasAddresses p.settings × Holds nvs ips p.settings s

  -- The same once a response's saves are carried out.
  abbrev Fits : State → Portal × Response → Type 0
  Fits s r = InStep (r.0, save_all r.1.saves s)

  InStep-settings :
      (p p' : Portal) (s : State) → p'.settings ≡ p.settings → InStep (p, s) → InStep (p', s)
  unfolding InStep
  InStep-settings p p' s e i = subst (λ n. HasAddresses n × Holds nvs ips n s) (sym e) i

  is_authed-InStep :
      (env : Env) (q : Request) (p : Portal) (s : State)
      → InStep (p, s)
      → InStep ((is_authed strings env q p).1, s)
  unfolding is_authed
  is_authed-InStep env q p s i = elim (Bool-cases (authed strings env q p)) [
    | inl live ↦ rw live (
        InStep-settings p (record p { session_expiry_ms = add32 env.renew_now session_ttl_ms }) s
          refl i)
    | inr dead ↦ rw dead i
  ]

  -- A response that saves nothing, whichever of two it is.
  choice-Fits :
      (b : Bool) (r r' : Portal × Response) (s : State)
      → Fits s r
      → Fits s r'
      → Fits s (if b then r else r')
  choice-Fits true r r' s i i' = i
  choice-Fits false r r' s i i' = i'

  guard-Fits :
      (auth : Bool) (env : Env) (q : Request) (h : Handler) (p : Portal) (s : State)
      → ((p' : Portal) → InStep (p', s) → Fits s (h p'))
      → InStep (p, s)
      → Fits s (guard strings auth env q h p)
  unfolding guard redirect
  guard-Fits false env q h p s k i =
      choice-Fits (not (from_lan q p)) (p, forbidden off_lan_message) (h p) s (unfold save_all in i)
        (k p i)
  guard-Fits true env q h p s k i =
      let (ok, p') = is_authed strings env q p in
      let i' = is_authed-InStep env q p s i in
      choice-Fits (not (from_lan q p)) (p, forbidden off_lan_message)
        (if ok then h p' else (p', redirect "/login")) s (unfold save_all in i)
        (choice-Fits ok (h p') (p', redirect "/login") s (k p' i') (unfold save_all in i'))

  apply_form-HasAddresses :
      (q : Request) (n : Settings) (a d : Address)
      → Passes strings ips q n a d
      → HasAddresses (apply_form strings ips q a d n)
  unfolding apply_form
  apply_form-HasAddresses q n a d k = record {
    ap_ip_valid = ips.from_string-IsAddress (arg "apIp" q) a k.addresses.0;
    dns_valid = ips.from_string-IsAddress (arg "dns" q) d k.addresses.1;
  }

  save_form-Fits :
      (env : Env) (q : Request) (p : Portal) (s : State)
      → InStep (p, s)
      → Fits s (save_form strings ips env q p)
  unfolding save_form save_all InStep
  save_form-Fits env q p s i = elim (check_form-result strings ips q p.settings) [
    | inr (e, bad) ↦ rw (bad, save_form) i
    | inl (a, d, k) ↦
        rw (k.passed, save_form)
          (
            apply_form-HasAddresses q p.settings a d k,
            save-Holds nvs ips (apply_form strings ips q a d p.settings) s,
          )
  ]

  -- A handler that keeps the settings and saves nothing.
  keeps-Fits :
      (p : Portal) (r : Portal × Response) (s : State)
      → InStep (p, s)
      → r.0.settings ≡ p.settings
      → r.1.saves ≡ []
      → Fits s r
  unfolding save_all
  keeps-Fits p r s i e n = rw n (InStep-settings p r.0 s e i)

  login_get-Fits :
      (env : Env) (q : Request) (p : Portal) (s : State)
      → InStep (p, s)
      → Fits s (login_get strings env q p)
  unfolding login_get send_login save_all redirect
  login_get-Fits env q p s i =
      let (ok, p') = is_authed strings env q p in
      choice-Fits ok (p', redirect "/") (send_login none p') s (is_authed-InStep env q p s i)
        (is_authed-InStep env q p s i)

  not_found-Fits :
      (env : Env) (q : Request) (p : Portal) (s : State)
      → InStep (p, s)
      → Fits s (not_found strings env q p)
  unfolding not_found save_all redirect
  not_found-Fits env q p s i =
      let (ok, p') = is_authed strings env q p in
      choice-Fits (not (from_lan q p)) (p, forbidden "Forbidden")
        (p', redirect (if ok then "/" else "/login")) s i (is_authed-InStep env q p s i)

  handle-Fits :
      (r : Route) (env : Env) (q : Request) (p : Portal) (s : State)
      → InStep (p, s)
      → Fits s (handle strings ips r env q p)
  unfolding handle handle_save
  handle-Fits to_root env q p s i =
      guard-Fits true env q root p s
        (λ p' i'. keeps-Fits p' (root p') s i' (unfold root in refl) (unfold root in refl)) i
  handle-Fits to_login_get env q p s i =
      guard-Fits false env q (login_get strings env q) p s (λ p' i'. login_get-Fits env q p' s i') i
  handle-Fits to_login_post env q p s i =
      guard-Fits false env q (login_post env q) p s
        (λ p' i'.
          keeps-Fits p' (login_post env q p') s i' (unfold login_post send_login in ground arith)
            (unfold login_post send_login in ground arith))
        i
  handle-Fits to_save env q p s i =
      guard-Fits true env q (save_form strings ips env q) p s
        (λ p' i'. save_form-Fits env q p' s i') i
  handle-Fits to_logout env q p s i =
      guard-Fits false env q logout p s
        (λ p' i'. keeps-Fits p' (logout p') s i' (unfold logout in refl) (unfold logout in refl)) i
  handle-Fits to_log env q p s i =
      guard-Fits true env q (show_page log_page) p s
        (λ p' i'.
          keeps-Fits p' (show_page log_page p') s i' (unfold show_page in refl)
            (unfold show_page in refl))
        i
  handle-Fits to_log_text env q p s i =
      guard-Fits true env q (show_log_text env) p s
        (λ p' i'.
          keeps-Fits p' (show_log_text env p') s i' (unfold show_log_text in refl)
            (unfold show_log_text in refl))
        i
  handle-Fits to_speed env q p s i =
      guard-Fits true env q (show_page speed_page) p s
        (λ p' i'.
          keeps-Fits p' (show_page speed_page p') s i' (unfold show_page in refl)
            (unfold show_page in refl))
        i
  handle-Fits to_speed_down env q p s i =
      guard-Fits true env q (speed_run strings env q) p s
        (λ p' i'.
          keeps-Fits p' (speed_run strings env q p') s i' (unfold speed_run in ground arith)
            (unfold speed_run in ground arith))
        i
  handle-Fits to_stat env q p s i =
      guard-Fits false env q (show_stat env) p s
        (λ p' i'.
          keeps-Fits p' (show_stat env p') s i' (unfold show_stat in refl)
            (unfold show_stat in refl))
        i
  handle-Fits to_not_found env q p s i = not_found-Fits env q p s i

  pub serve_each-InStep :
      (dispatch : Dispatch) (qs : List (Env × Request)) (ps : Portal × State)
      → InStep ps
      → InStep (serve_each dispatch qs ps)
  unfolding serve_each serve_stored serve
  serve_each-InStep dispatch [] ps i = i
  serve_each-InStep dispatch ((env, q) ∷ rest) (p, s) i =
      serve_each-InStep dispatch rest (serve_stored dispatch env q (p, s))
        (handle-Fits (dispatch routes q) env q p s i)

  -- Whatever requests arrive, from whomever and in whatever order, and whatever handlers they reach, a
  -- boot at any moment between two of them brings up exactly the settings that the portal runs on, if
  -- the flash held them at first: no request changes one without the other, and no form can store an
  -- address that does not read back.
  pub begin-serve_each :
      (dispatch : Dispatch) (m : Secrets) (qs : List (Env × Request)) (p : Portal) (s : State)
      → InStep (p, s)
      → (begin nvs ips m (serve_each dispatch qs (p, s)).1).0
        ≡ (serve_each dispatch qs (p, s)).0.settings
  unfolding InStep
  begin-serve_each dispatch m qs p s i =
      let (valid, held) = serve_each-InStep dispatch qs (p, s) i in
      let (p', s') = serve_each dispatch qs (p, s) in
      (begin-Holds nvs ips m p'.settings s' valid held).0
