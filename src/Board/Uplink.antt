-- ===== src/Board/Uplink.antt =====
-- The uplink over the lives of the board, restarts included.
use spool_gate.Base.{ℕ, ◌≡◌, refl, Option, some, List, [], ◌∷◌, Bool-cases, inl, inr}
use spool_gate.Config.{AddressText}
use spool_gate.Config.Nvs.{Store}
use spool_gate.Config as Config
use spool_gate.Watchdog
use spool_gate.Router.{Router}
use spool_gate.Router.Loop.{System, Inputs, feed_watchdog, behind_portal, client_probeable}
use spool_gate.Router.Link.{
  Link, Step, event, samples, reconciles, probes, recovers_uplink, recovers_client, watches, beats,
  shows, bounds, reconnects, step, run, run-Moves, link_of, trying, setup-trying,
}
use spool_gate.Portal.{Strings, Request, Env}
use spool_gate.Portal.Handlers.{Dispatch, restart_due}
use spool_gate.Board.{
  Boot, Board, Outcome, goes_on, restarts, power_up, linked, serve_one, pass, supervise, resume,
  Moment, passes, events, pings, supervises, power_cuts, happen, live,
}

-- The uplink is in one of its three states.
abbrev pub HasLink : Router → Type 0
HasLink r = (l : Link) × (link_of r ≡ some l)

run-HasLink : (steps : List Step) (s : System) → HasLink s.router → HasLink (run steps s).router
run-HasLink steps s h = let m = run-Moves steps h.0 s h.1 in (m.0, m.1)

-- The steps behind `portal::loop()`.
abbrev rest_steps : Inputs → System → List Step
rest_steps i s =
    let p = client_probeable (run (samples i ∷ reconciles i ∷ []) s).router in
    samples i
    ∷ reconciles i
    ∷ probes p i
    ∷ recovers_uplink i
    ∷ recovers_client p
    ∷ watches
    ∷ beats i
    ∷ shows i
    ∷ bounds i
    ∷ reconnects i
    ∷ []

behind_portal-HasLink :
    (i : Inputs) (s : System) → HasLink s.router → HasLink (behind_portal i s).0.router
unfolding run step
behind_portal-HasLink i s h = run-HasLink (rest_steps i s) s h

event-HasLink :
    (now schedule_now : ℕ) (e : _) (s : System)
    → HasLink s.router
    → HasLink (step (event now schedule_now e) s).0.router
unfolding run
event-HasLink now schedule_now e s h = run-HasLink (event now schedule_now e ∷ []) s h

module _ (strings : Strings) (ips : AddressText) (nvs : Store) where
  open nvs use {State}

  pub power_up-HasLink :
      (boot : Boot) (s : State) → HasLink (power_up strings ips nvs boot s).system.router
  unfolding power_up linked
  power_up-HasLink boot s = (
    trying,
    setup-trying (boot.reason) (boot.created) (boot.watchdog_now) (boot.watchdog_mark)
        (Config.begin nvs ips (boot.secrets) s).0 (boot.ap_ok) (boot.start_now) linked refl,
  )

  abbrev Lands : Outcome strings ips nvs → Type 0
  Lands (goes_on b) = HasLink (b.system.router)
  Lands (restarts s) = Unit

  resume-HasLink :
      (boot : Boot) (o : Outcome strings ips nvs)
      → Lands o
      → HasLink (resume strings ips nvs boot o).system.router
  unfolding resume
  resume-HasLink boot (goes_on b) h = h
  resume-HasLink boot (restarts s) h = power_up-HasLink boot s

  pass-Lands :
      (dispatch : Dispatch) (i : Inputs) (request : Option (Env × Request)) (now : ℕ)
      (b : Board strings ips nvs)
      → HasLink (b.system.router)
      → Lands (pass strings ips nvs dispatch i request now b)
  unfolding pass feed_watchdog
  pass-Lands dispatch i request now b h =
      let fed = (feed_watchdog i (b.system)).0 in
      let ps = serve_one strings ips nvs dispatch request fed (b.portal, b.flash) in
      elim (Bool-cases (restart_due now ps.0)) [
        | inl due ↦ rw due tt
        | inr not_due ↦
            rw not_due (behind_portal-HasLink (record i { settings = ps.0.settings }) fed h)
      ]

  supervise-Lands :
      (now : ℕ) (b : Board strings ips nvs)
      → HasLink (b.system.router)
      → Lands (supervise strings ips nvs now b)
  unfolding supervise
  supervise-Lands now b h = by_verdict (Watchdog.poll now (b.system.watchdog))
    where
      by_verdict :
          (v : Watchdog.Verdict)
          → Lands
              (elim v [ Watchdog.wait ↦ goes_on b | Watchdog.reboot cause ↦ restarts (b.flash) ])
      by_verdict Watchdog.wait = h
      by_verdict (Watchdog.reboot cause) = tt

  happen-HasLink :
      (m : Moment) (b : Board strings ips nvs)
      → HasLink (b.system.router)
      → HasLink (happen strings ips nvs m b).system.router
  unfolding happen step
  happen-HasLink (passes dispatch i request now boot) b h =
      resume-HasLink boot (pass strings ips nvs dispatch i request now b)
        (pass-Lands dispatch i request now b h)
  happen-HasLink (events now schedule_now e) b h = event-HasLink now schedule_now e (b.system) h
  happen-HasLink (pings ping) b h = h
  happen-HasLink (supervises now boot) b h =
      resume-HasLink boot (supervise strings ips nvs now b) (supervise-Lands now b h)
  happen-HasLink (power_cuts boot) b h = power_up-HasLink boot (b.flash)

  live-HasLink :
      (ms : List Moment) (b : Board strings ips nvs)
      → HasLink (b.system.router)
      → HasLink (live strings ips nvs ms b).system.router
  unfolding live
  live-HasLink [] b h = h
  live-HasLink (m ∷ ms) b h = live-HasLink ms (happen strings ips nvs m b) (happen-HasLink m b h)

  -- Over any life of the board, on any flash, with requests, events, callbacks, supervisor rounds,
  -- restarts and power cuts in any order: the flags say of the uplink exactly one of three things, that
  -- it is up, that an attempt runs, or that a reconnect is due.
  pub live-Link :
      (boot : Boot) (s : State) (ms : List Moment)
      → HasLink (live strings ips nvs ms (power_up strings ips nvs boot s)).system.router
  live-Link boot s ms = live-HasLink ms (power_up strings ips nvs boot s) (power_up-HasLink boot s)
