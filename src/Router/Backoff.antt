-- ===== src/Router/Backoff.antt =====
-- The delays between attempts.
use spool_gate.Base.{
  ℕ, zero, suc, ◌+◌, ◌*◌, ◌%◌, ◌≤◌, ◌≡◌, refl, ap, ◌∙◌, List, [], ◌∷◌, length, arith, min, u32_mod,
}
use spool_gate.Router.{
  Router, start_attempt, poll_radio, reconcile_napt, enable_napt, disable_napt, schedule_reconnect,
  backoff_initial_ms, backoff_max_ms,
}
use spool_gate.Router.Events.{Event, on_wifi_event}
use spool_gate.Router.Loop.{
  System, feed_watchdog, sample_radio, reconcile, probe, recover_uplink, recover_client,
  watch_channel, beat, show_state, bound_attempt, reconnect,
}
use spool_gate.Router.Link.{Step, event, step, run}

pub record HasBackoff (r : Router) : Type 0 where
  pub least : backoff_initial_ms ≤ r.backoff_ms
  pub most : r.backoff_ms ≤ backoff_max_ms

event-HasBackoff :
    (now schedule_now : ℕ) (e : Event) (r : Router)
    → HasBackoff r
    → HasBackoff (on_wifi_event now schedule_now e r).0
unfolding on_wifi_event schedule_reconnect disable_napt
event-HasBackoff now schedule_now e r h = ground arith

step-HasBackoff : (a : Step) (s : System) → HasBackoff s.router → HasBackoff (step a s).0.router
unfolding step feed_watchdog sample_radio poll_radio reconcile reconcile_napt enable_napt
    disable_napt probe recover_client watch_channel beat show_state recover_uplink bound_attempt
    reconnect schedule_reconnect start_attempt
step-HasBackoff (event now schedule_now e) s h = event-HasBackoff now schedule_now e s.router h
step-HasBackoff a s h = ground arith

-- A backoff between 2 and 15 seconds stays there, whatever events and phases of the loop come, in any
-- order.
pub run-HasBackoff :
    (steps : List Step) (s : System) → HasBackoff s.router → HasBackoff (run steps s).router
unfolding run
run-HasBackoff [] s h = h
run-HasBackoff (a ∷ rest) s h = run-HasBackoff rest (step a s).0 (step-HasBackoff a s h)

-- `k` reconnects scheduled in a row, at the given readings of the clock.
pub schedule_all : List ℕ → Router → Router
schedule_all [] r = r
schedule_all (now ∷ nows) r = schedule_all nows (schedule_reconnect now r).0

-- The delays: 2, 4, 8 and then 15 seconds.
abbrev pub nth_delay : ℕ → ℕ
nth_delay zero = 2000
nth_delay (suc zero) = 4000
nth_delay (suc (suc zero)) = 8000
nth_delay (suc (suc (suc k))) = 15000

nth_delay-suc : (k : ℕ) → min (nth_delay k * 2 % u32_mod) backoff_max_ms ≡ nth_delay (suc k)
nth_delay-suc zero = refl
nth_delay-suc (suc zero) = refl
nth_delay-suc (suc (suc zero)) = refl
nth_delay-suc (suc (suc (suc k))) = refl

backoff-schedule_from :
    (nows : List ℕ) (k : ℕ) (r : Router)
    → r.backoff_ms ≡ nth_delay k
    → (schedule_all nows r).backoff_ms ≡ nth_delay (length nows + k)
unfolding schedule_all schedule_reconnect
backoff-schedule_from [] k r e = e ∙ ap nth_delay (omega arith)
backoff-schedule_from (now ∷ nows) k r e =
    backoff-schedule_from nows (suc k) (schedule_reconnect now r).0
      (ap (λ b. min (b * 2 % u32_mod) backoff_max_ms) e ∙ nth_delay-suc k)
    ∙ ap nth_delay (omega arith)

-- From the initial backoff, which an address restores, attempts that fail in a row are delayed by 2,
-- 4 and 8 seconds and then by 15 each time.
pub backoff-schedule_all :
    (nows : List ℕ) (r : Router)
    → r.backoff_ms ≡ backoff_initial_ms
    → (schedule_all nows r).backoff_ms ≡ nth_delay (length nows)
backoff-schedule_all nows r e = backoff-schedule_from nows 0 r e ∙ ap nth_delay (omega arith)
