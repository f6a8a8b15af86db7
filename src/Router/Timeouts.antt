-- ===== src/Router/Timeouts.antt =====
-- The deadlines of an attempt and of a reconnect.
use spool_gate.Base.{ℕ, ◌+◌, ◌<◌, ◌≤◌, ◌≡◌, ◌↔◌, true, false, arith, add32, u32_mod, IsU32}
use spool_gate.Config.{Settings}
use spool_gate.Router.{
  start_attempt, disable_napt, schedule_reconnect, attempt_timeout_ms, attempt_quiet_ms,
}
use spool_gate.Router.Events.{sta_disconnected, on_wifi_event}
use spool_gate.Router.Loop.{System, Inputs, bound_attempt, reconnect, hard_timeout, gave_up}
use spool_gate.Router.Backoff.{HasBackoff}

-- An attempt is given up once 20 seconds have gone by since it was started, on the clock that wraps,
-- whatever the driver did: a reconnect is then due after the backoff, counted from the reading.
pub attempt_bounded :
    (i : Inputs) (s : System) (t d : ℕ)
    → IsU32 t
    → IsU32 d
    → s.router.attempt_active ≡ true
    → s.router.attempt_started_ms ≡ t
    → i.hard_now ≡ add32 t d
    → attempt_timeout_ms ≤ d
    → let r = (bound_attempt i s).0.router in
      (r.attempt_active ≡ false)
      × (r.reconnect_pending ≡ true)
      × (r.reconnect_at_ms ≡ add32 i.retry_now s.router.backoff_ms)
unfolding bound_attempt schedule_reconnect hard_timeout
attempt_bounded i s t d ht hd active started now late = ground arith

-- An attempt that reached association and has not lost it is left alone until then.
pub associated_attempt_kept :
    (i : Inputs) (s : System) (t d : ℕ)
    → IsU32 t
    → s.router.attempt_started_ms ≡ t
    → i.hard_now ≡ add32 t d
    → d < attempt_timeout_ms
    → s.router.attempt_associated ≡ true
    → (bound_attempt i s).0.router ≡ s.router
unfolding bound_attempt hard_timeout gave_up
associated_attempt_kept i s t d ht started now early assoc = ground arith

-- A reconnect that is scheduled with no wrap of the clock ahead starts an attempt exactly from its
-- deadline on.
pub reconnect_due :
    (i : Inputs) (s : System) (now : ℕ)
    → HasBackoff s.router
    → now + s.router.backoff_ms < u32_mod
    → s.router.attempt_active ≡ false
    → let s' = record s { router = (schedule_reconnect now s.router).0 } in
      ((reconnect i s').0.router.attempt_active ≡ true) ↔ (now + s.router.backoff_ms ≤ i.due_now)
unfolding reconnect schedule_reconnect start_attempt
reconnect_due i s now h nowrap idle = (λ e. ground arith, λ e. ground arith)

-- With a wrap of the clock ahead it starts one at once: the backoff is skipped.
pub reconnect_wraps :
    (i : Inputs) (s : System) (now : ℕ)
    → HasBackoff s.router
    → IsU32 now
    → u32_mod ≤ now + s.router.backoff_ms
    → now ≤ i.due_now
    → let s' = record s { router = (schedule_reconnect now s.router).0 } in
      (reconnect i s').0.router.attempt_active ≡ true
unfolding reconnect schedule_reconnect start_attempt
reconnect_wraps i s now h hn wrap later = ground arith

-- A disconnect event that comes within an attempt, such as the one that the attempt's own call of
-- `disconnect` brings about, starts the quiet rule: without an association the attempt is abandoned
-- two seconds later, long before its 20 seconds are over.
pub own_disconnect-abandons :
    (i : Inputs) (s : System) (t t' at d : ℕ) (settings : Settings)
    → IsU32 at
    → 0 < at
    → i.quiet_now ≡ add32 at d
    → attempt_quiet_ms ≤ d
    → IsU32 d
    → let r = (on_wifi_event at t' sta_disconnected (start_attempt t settings s.router).0).0 in
      let r' = (bound_attempt i (record s { router = r })).0.router in
      (r'.attempt_active ≡ false) × (r'.reconnect_pending ≡ true)
unfolding on_wifi_event start_attempt bound_attempt gave_up schedule_reconnect disable_napt
own_disconnect-abandons i s t t' at d settings hat pos now quiet hd = ground arith
