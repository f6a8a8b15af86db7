-- ===== src/Board/Stored.antt =====
-- The settings of the whole board: what runs is what is stored.
use spool_gate.Base.{ℕ, ◌≡◌, ◌⊎◌, inl, inr, Option, none, some, List, [], ◌∷◌, Bool-cases, ◌∙◌}
use spool_gate.Config.{Settings, Secrets, AddressText, load_from_defaults, begin}
use spool_gate.Config.Nvs.{Store}
use spool_gate.Config.Flash.{HasAddresses, Holds, save-Holds}
use spool_gate.Config.Reboot.{begin-Holds, begin-blank, defaults-HasAddresses}
use spool_gate.Watchdog
use spool_gate.Router.Loop.{System, Inputs, feed_watchdog}
use spool_gate.Portal.{Strings, Request, Portal, Env}
use spool_gate.Portal.Handlers.{Dispatch, restart_due}
use spool_gate.Portal.Persist.{serve_each, InStep, serve_each-InStep}
use spool_gate.Board.{
  Boot, Board, Outcome, goes_on, restarts, power_up, fresh_portal, seen, serve_one, pass, supervise,
  resume, Moment, passes, events, pings, supervises, power_cuts, happen, live,
}

module _ (strings : Strings) (ips : AddressText) (nvs : Store) where
  open nvs use {State, content}

  -- A flash that a boot can find: one that holds no settings yet, or settings with valid addresses that
  -- were saved over whatever it held before.
  abbrev pub IsBootable : State → Type 0
  IsBootable s = (content s "uSsid" ≡ none) ⊎ ((n : Settings) × HasAddresses n × Holds nvs ips n s)

  -- The board runs on the settings that its flash holds.
  abbrev pub RunsStored : Board strings ips nvs → Type 0
  RunsStored b = InStep strings ips nvs (b.portal, b.flash)

  begin-InStep :
      (m : Secrets) (s : State)
      → IsBootable s
      → InStep strings ips nvs (fresh_portal (begin nvs ips m s).0, (begin nvs ips m s).1)
  unfolding InStep fresh_portal
  begin-InStep m s (inl blank) =
      rw (begin-blank nvs ips m s blank)
        (defaults-HasAddresses nvs ips m, save-Holds nvs ips (load_from_defaults m) _)
  begin-InStep m s (inr (n, valid, held)) =
      let (same, kept) = begin-Holds nvs ips m n s valid held in
      rw same (valid, (held.0, λ j. kept j ∙ held.1 j))

  pub power_up-RunsStored :
      (boot : Boot) (s : State) → IsBootable s → RunsStored (power_up strings ips nvs boot s)
  unfolding power_up
  power_up-RunsStored boot s r = begin-InStep (boot.secrets) s r

  RunsStored-IsBootable : (b : Board strings ips nvs) → RunsStored b → IsBootable (b.flash)
  unfolding InStep
  RunsStored-IsBootable b i = inr (b.portal.settings, i.0, i.1)

  serve_one-InStep :
      (dispatch : Dispatch) (request : Option (Env × Request)) (s : System) (ps : Portal × State)
      → InStep strings ips nvs ps
      → InStep strings ips nvs (serve_one strings ips nvs dispatch request s ps)
  unfolding serve_one serve_each
  serve_one-InStep dispatch none s ps i = i
  serve_one-InStep dispatch (some (env, q)) s ps i =
      serve_each-InStep strings ips nvs dispatch ((seen s env, q) ∷ []) ps i

  -- The same of an outcome: a restart leaves a flash that boots.
  abbrev Lands : Outcome strings ips nvs → Type 0
  Lands (goes_on b) = RunsStored b
  Lands (restarts s) = IsBootable s

  resume-RunsStored :
      (boot : Boot) (o : Outcome strings ips nvs)
      → Lands o
      → RunsStored (resume strings ips nvs boot o)
  unfolding resume
  resume-RunsStored boot (goes_on b) r = r
  resume-RunsStored boot (restarts s) r = power_up-RunsStored boot s r

  pass-Lands :
      (dispatch : Dispatch) (i : Inputs) (request : Option (Env × Request)) (now : ℕ)
      (b : Board strings ips nvs)
      → RunsStored b
      → Lands (pass strings ips nvs dispatch i request now b)
  unfolding pass InStep
  pass-Lands dispatch i request now b r =
      let fed = (feed_watchdog i (b.system)).0 in
      let ps = serve_one strings ips nvs dispatch request fed (b.portal, b.flash) in
      let served = serve_one-InStep dispatch request fed (b.portal, b.flash) r in
      elim (Bool-cases (restart_due now ps.0)) [
        | inl due ↦ rw due (inr (ps.0.settings, served.0, served.1))
        | inr not_due ↦ rw not_due served
      ]

  supervise-Lands :
      (now : ℕ) (b : Board strings ips nvs) → RunsStored b → Lands (supervise strings ips nvs now b)
  unfolding supervise
  supervise-Lands now b r = by_verdict (Watchdog.poll now (b.system.watchdog))
    where
      by_verdict :
          (v : Watchdog.Verdict)
          → Lands
              (elim v [ Watchdog.wait ↦ goes_on b | Watchdog.reboot cause ↦ restarts (b.flash) ])
      by_verdict Watchdog.wait = r
      by_verdict (Watchdog.reboot cause) = RunsStored-IsBootable b r

  pub happen-RunsStored :
      (m : Moment) (b : Board strings ips nvs)
      → RunsStored b
      → RunsStored (happen strings ips nvs m b)
  unfolding happen
  happen-RunsStored (passes dispatch i request now boot) b r =
      resume-RunsStored boot (pass strings ips nvs dispatch i request now b)
        (pass-Lands dispatch i request now b r)
  happen-RunsStored (events now schedule_now e) b r = r
  happen-RunsStored (pings ping) b r = r
  happen-RunsStored (supervises now boot) b r =
      resume-RunsStored boot (supervise strings ips nvs now b) (supervise-Lands now b r)
  happen-RunsStored (power_cuts boot) b r =
      power_up-RunsStored boot (b.flash) (RunsStored-IsBootable b r)

  pub live-RunsStored :
      (ms : List Moment) (b : Board strings ips nvs)
      → RunsStored b
      → RunsStored (live strings ips nvs ms b)
  unfolding live
  live-RunsStored [] b r = r
  live-RunsStored (m ∷ ms) b r =
      live-RunsStored ms (happen strings ips nvs m b) (happen-RunsStored m b r)

  -- From the first power-up of a device whose flash is blank or holds saved settings, through any
  -- requests, events, callbacks, recoveries, scheduled restarts and power cuts between them, the
  -- settings that the portal and the router run on are at every moment the ones that a boot would
  -- bring up, by this build or by one with other factory defaults.
  pub begin-live :
      (boot : Boot) (s : State) (ms : List Moment) (m : Secrets)
      → IsBootable s
      → let b = live strings ips nvs ms (power_up strings ips nvs boot s) in
        (begin nvs ips m (b.flash)).0 ≡ b.portal.settings
  unfolding InStep
  begin-live boot s ms m r =
      let b = live strings ips nvs ms (power_up strings ips nvs boot s) in
      let (valid, held) =
        live-RunsStored ms (power_up strings ips nvs boot s) (power_up-RunsStored boot s r) in
      (begin-Holds nvs ips m (b.portal.settings) (b.flash) valid held).0
