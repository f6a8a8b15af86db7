-- ===== src/Board/Restart.antt =====
-- The restart that a saved form schedules (`g_rebootAtMs` of src/web/portal.cpp), seen on the board.
use spool_gate.Base.{
  ℕ, ◌+◌, ◌<◌, ◌≤◌, ◌≡◌, refl, ap, ◌∙◌, Bool, true, false, not, none, some, List, [], ◌∷◌, leb, ltb,
  ◌==◌, arith, add32, IsU32, u32_mod, Address, All,
}
use spool_gate.Config.{Settings, AddressText}
use spool_gate.Config.Nvs.{Store}
use spool_gate.Config.Reboot.{begin-Holds}
use spool_gate.Router.Loop.{System, Inputs, feed_watchdog}
use spool_gate.Portal.{Strings, Request, Portal, Env}
use spool_gate.Portal.Access.{from_lan, authed, is_authed, guard}
use spool_gate.Portal.Form.{apply_form, save_form, handle_save}
use spool_gate.Portal.Save.{Passes}
use spool_gate.Portal.Handlers.{Dispatch, to_save, routes, handle, serve, restart_due}
use spool_gate.Portal.Persist.{serve_stored, InStep}
use spool_gate.Board.{
  Boot, Board, power_up, fresh_portal, seen, serve_one, pass, resume, Moment, passes, events, pings,
  supervises, power_cuts, happen, live,
}
use spool_gate.Board.Stored.{RunsStored, happen-RunsStored, live-RunsStored}

-- Away from the wrap of the clock, the restart is due exactly when more than 1.5 s have passed.
restart_due-scheduled :
    (t now : ℕ) (p : Portal)
    → t + 1500 < u32_mod
    → p.reboot_at_ms ≡ add32 t 1500
    → restart_due now p ≡ ltb (t + 1500) now
unfolding restart_due
restart_due-scheduled t now p l e = ground arith

-- A restart that is scheduled within 1.5 s of the wrap of the clock is due at once, before the delay
-- that is to flush the response; but if the sum wraps to 0 exactly, none is due at any reading from then to the wrap.
pub restart_due-wrap :
    (t now : ℕ) (p : Portal)
    → IsU32 t
    → u32_mod ≤ t + 1500
    → p.reboot_at_ms ≡ add32 t 1500
    → t ≤ now
    → restart_due now p ≡ not (t + 1500 == u32_mod)
unfolding restart_due
restart_due-wrap t now p u l e late = ground arith

-- Nothing happens but iterations without a request, up to the reading `due`, and callbacks.
abbrev pub is_quiet : ℕ → Moment → Bool
is_quiet due (passes dispatch i none now boot) = leb now due
is_quiet due (passes dispatch i (some r) now boot) = false
is_quiet due (events now schedule_now e) = true
is_quiet due (pings ping) = true
is_quiet due (supervises now boot) = false
is_quiet due (power_cuts boot) = false

module _ (strings : Strings) (ips : AddressText) (nvs : Store) where
  open nvs use {State}

  -- The portal and the flash are those of `b`.
  abbrev SamePortal : Board strings ips nvs → Board strings ips nvs → Type 0
  SamePortal b b' = (b'.portal ≡ b.portal) × (b'.flash ≡ b.flash)

  quiet_pass :
      (dispatch : Dispatch) (i : Inputs) (now t : ℕ) (boot : Boot) (b : Board strings ips nvs)
      → t + 1500 < u32_mod
      → b.portal.reboot_at_ms ≡ add32 t 1500
      → leb now (t + 1500) ≡ true
      → SamePortal b (happen strings ips nvs (passes dispatch i none now boot) b)
  unfolding happen pass serve_one resume
  quiet_pass dispatch i now t boot b l e early =
      rw (restart_due-scheduled t now b.portal l e, not_later) (refl, refl)
    where
      not_later : ltb (t + 1500) now ≡ false
      not_later = ground arith

  quiet-SamePortal :
      (m : Moment) (t : ℕ) (b : Board strings ips nvs)
      → t + 1500 < u32_mod
      → b.portal.reboot_at_ms ≡ add32 t 1500
      → is_quiet (t + 1500) m ≡ true
      → SamePortal b (happen strings ips nvs m b)
  unfolding happen
  quiet-SamePortal (passes dispatch i none now boot) t b l e q =
      quiet_pass dispatch i now t boot b l e q
  quiet-SamePortal (passes dispatch i (some r) now boot) t b l e q = absurd (cc q)
  quiet-SamePortal (events now schedule_now ev) t b l e q = (refl, refl)
  quiet-SamePortal (pings ping) t b l e q = (refl, refl)
  quiet-SamePortal (supervises now boot) t b l e q = absurd (cc q)
  quiet-SamePortal (power_cuts boot) t b l e q = absurd (cc q)

  live-SamePortal :
      (ms : List Moment) (t : ℕ) (b : Board strings ips nvs)
      → t + 1500 < u32_mod
      → b.portal.reboot_at_ms ≡ add32 t 1500
      → All (λ m. is_quiet (t + 1500) m ≡ true) ms
      → SamePortal b (live strings ips nvs ms b)
  unfolding live
  live-SamePortal [] t b l e q = (refl, refl)
  live-SamePortal (m ∷ ms) t b l e q =
      let one = quiet-SamePortal m t b l e q.0 in
      let rest =
        live-SamePortal ms t (happen strings ips nvs m b) l (ap (λ p. p.reboot_at_ms) one.0 ∙ e)
          q.1 in
      (rest.0 ∙ one.0, rest.1 ∙ one.1)

  -- A request that saves: from the private network, signed in, with a form that passes the checks.
  pub record Saves (dispatch : Dispatch) (env : Env) (q : Request) (p : Portal) (a d : Address)
      : Type 0 where
    pub on_lan : from_lan q p ≡ true
    pub signed_in : authed strings env q p ≡ true
    pub routed : dispatch routes q ≡ to_save
    pub form : Passes strings ips q p.settings a d

  -- What such a request leaves.
  IsScheduled : ℕ → Settings → Portal → Type 0
  IsScheduled t n p = (p.settings ≡ n) × (p.reboot_at_ms ≡ add32 t 1500)

  serve-IsScheduled :
      (dispatch : Dispatch) (env : Env) (q : Request) (p : Portal) (a d : Address)
      → Saves dispatch env q p a d
      → IsScheduled env.save_now
          (apply_form strings ips q a d p.settings)
          (serve strings ips dispatch env q p).0
  unfolding serve handle handle_save guard is_authed IsScheduled save_form
  serve-IsScheduled dispatch env q p a d h =
      rw
        (
          h.routed, handle, handle_save, guard, h.on_lan, is_authed, h.signed_in, save_form,
          h.form.passed, is_authed, h.signed_in,
        )
        (refl, refl)

  saving_pass-IsScheduled :
      (dispatch : Dispatch) (i : Inputs) (env : Env) (q : Request) (now : ℕ) (boot : Boot)
      (b : Board strings ips nvs) (a d : Address)
      → Saves dispatch env q b.portal a d
      → env.save_now + 1500 < u32_mod
      → leb now (env.save_now + 1500) ≡ true
      → IsScheduled env.save_now
          (apply_form strings ips q a d b.portal.settings)
          (happen strings ips nvs (passes dispatch i (some (env, q)) now boot) b).portal
  unfolding happen pass serve_one serve_stored resume seen IsScheduled authed
  saving_pass-IsScheduled dispatch i env q now boot b a d h l early =
      rw (restart_due-scheduled env.save_now now served.0 l done.1, not_later) done
    where
      fed : System
      fed = (feed_watchdog i (b.system)).0

      served : Portal × State
      served = serve_stored strings ips nvs dispatch (seen fed env) q (b.portal, b.flash)

      done : IsScheduled env.save_now (apply_form strings ips q a d b.portal.settings) served.0
      done =
          serve-IsScheduled dispatch (seen fed env) q (b.portal) a d (record {
            on_lan = h.on_lan;
            signed_in = h.signed_in;
            routed = h.routed;
            form = h.form;
          })

      not_later : ltb (env.save_now + 1500) now ≡ false
      not_later = ground arith

  due_pass-restarts :
      (dispatch : Dispatch) (i : Inputs) (now t : ℕ) (boot : Boot) (n : Settings)
      (b : Board strings ips nvs)
      → RunsStored strings ips nvs b
      → IsScheduled t n b.portal
      → t + 1500 < u32_mod
      → t + 1500 < now
      → (happen strings ips nvs (passes dispatch i none now boot) b).portal ≡ fresh_portal n
  unfolding happen pass serve_one resume power_up IsScheduled InStep
  due_pass-restarts dispatch i now t boot n b stored scheduled l late =
      rw (restart_due-scheduled t now b.portal l scheduled.1, later)
        (ap fresh_portal (
          (begin-Holds nvs ips (boot.secrets) b.portal.settings b.flash stored.0 stored.1).0
          ∙ scheduled.0))
    where
      later : ltb (t + 1500) now ≡ true
      later = ground arith

  -- A save takes effect. On a board that runs what it stores, a form that is sent from the private
  -- network with a live session and passes the checks is in force at once, and stays so through
  -- iterations without a request, events and callbacks while no more than 1.5 s have passed on a clock
  -- that does not wrap; the first iteration after that restarts the board, which comes up with exactly
  -- these settings, no session, and no restart pending.
  pub save-applies :
      (dispatch : Dispatch) (i i' : Inputs) (env : Env) (q : Request) (now now' : ℕ)
      (boot boot' : Boot) (ms : List Moment) (b : Board strings ips nvs) (a d : Address)
      → RunsStored strings ips nvs b
      → Saves dispatch env q b.portal a d
      → env.save_now + 1500 < u32_mod
      → leb now (env.save_now + 1500) ≡ true
      → All (λ m. is_quiet (env.save_now + 1500) m ≡ true) ms
      → env.save_now + 1500 < now'
      → let n = apply_form strings ips q a d b.portal.settings in
        let b₁ = happen strings ips nvs (passes dispatch i (some (env, q)) now boot) b in
        let b₂ = live strings ips nvs ms b₁ in
        (b₁.portal.settings ≡ n)
        × (b₂.portal ≡ b₁.portal)
        × ((happen strings ips nvs (passes dispatch i' none now' boot') b₂).portal ≡ fresh_portal n)
  unfolding IsScheduled
  save-applies dispatch i i' env q now now' boot boot' ms b a d stored h l early quiet late =
      let saved = saving_pass-IsScheduled dispatch i env q now boot b a d h l early in
      let moment = passes dispatch i (some (env, q)) now boot in
      let b₁ = happen strings ips nvs moment b in
      let same = live-SamePortal ms env.save_now b₁ l saved.1 quiet in
      (
        saved.0,
        same.0,
        due_pass-restarts dispatch i' now' env.save_now boot'
            (apply_form strings ips q a d b.portal.settings) (live strings ips nvs ms b₁)
            (live-RunsStored strings ips nvs ms b₁
              (happen-RunsStored strings ips nvs moment b stored))
            (ap (λ p. p.settings) same.0 ∙ saved.0, ap (λ p. p.reboot_at_ms) same.0 ∙ saved.1) l
            late,
      )
