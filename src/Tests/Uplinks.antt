-- ===== src/Tests/Uplinks.antt =====
-- The router's state machine in concrete runs.
use spool_gate.Base.{
  ℕ, ◌≡◌, ◌≤◌, ◌↔◌, refl, true, false, ◌||◌, ◌&&◌, if◌then◌else◌, none, some, List, [], ◌∷◌,
  Address, arith, ltb, leb, add32, negsuc,
}
use spool_gate.Watchdog.{power_on}
use spool_gate.Health
use spool_gate.Health.{Tick, Action, ticks, up_replies, up_ends, down_replies, down_ends, started}
use spool_gate.Health.Streak.{history, upstream_seen, downstream_seen, ended, silent, answered}
use spool_gate.Router.{
  Router, initial, start_attempt, reconcile_napt, schedule_reconnect, backoff_initial_ms, log,
  recovery_uplink, recovery_client, reconnect_scheduled, drop_station, deauth_all,
}
use spool_gate.Router.Events.{
  sta_have_ip, sta_disconnected, ap_sta_ip_assigned, ap_sta_disconnected, on_wifi_event,
}
use spool_gate.Router.Loop.{
  System, Inputs, setup, bound_attempt, reconnect, uplink_dead, recover_uplink, recover_client,
  client_probeable, probe_tick,
}
use spool_gate.Router.Link.{
  Link, Step, event, bounds, reconnects, reconciles, run, link_of, Moves, trying, never_stranded,
}
use spool_gate.Router.Backoff.{HasBackoff, run-HasBackoff}
use spool_gate.Router.Forwarding.{
  Timed, IsBacked, events, reconcile_napt-joined, joined, is_given, Reconciled,
  reconcile-events-IsBacked,
}
use spool_gate.Router.Timeouts.{attempt_bounded, reconnect_due, own_disconnect-abandons}
use spool_gate.Router.Recovery.{
  probed, gone, upstream_history, downstream_history, torn_down, recover_uplink_lem,
  recover_client_lem, leaver_still_probed,
}
use spool_gate.Tests.Flash.{settings}
use spool_gate.Tests.Probes.{idle_probe, idle_health}

-- Every call of `millis()` in the iteration reads `now`.
abbrev pub at_time : ℕ → Inputs
at_time now = record {
  settings = settings;
  watchdog_now = now;
  watchdog_mark = now;
  poll_now = now;
  poll_mark = now;
  stations = 1;
  channel = 6;
  napt_now = now;
  napt_ok = true;
  gateway = record { a = 10; b = 0; c = 0; d = 1 };
  probe_now = now;
  probe_mark = now;
  up_outcome = started 1;
  down_outcome = started 2;
  recover_now = now;
  beat_now = now;
  beat_mark = now;
  rssi = negsuc 54;
  led_now = now;
  hard_now = now;
  quiet_now = now;
  retry_now = now;
  due_now = now;
  start_now = now;
}

abbrev leased : Address
leased = record { a = 192; b = 168; c = 5; d = 3 }

abbrev pub powered : System
powered = record {
  router = initial;
  health = idle_health;
  watchdog = record {
    last_loop_ms = 0;
    uplink_down_since_ms = 0;
    armed = false;
    reset_reason = "";
  };
  led = record { brightness = 64; last_written = none };
}

-- The first attempt fails, is retried, and is lost once it has an address.
abbrev steps : List Step
steps =
    bounds (at_time 20500)
    ∷ reconnects (at_time 22500)
    ∷ event 23000 23000 (sta_have_ip leased leased leased 6)
    ∷ reconciles (at_time 23100)
    ∷ event 24000 24000 sta_disconnected
    ∷ []

never_stranded_example :
    (l : Link) × (link_of (run steps (setup power_on true 0 0 settings true 500 powered).0).router
      ≡ some l)
    × Moves trying l
never_stranded_example = never_stranded power_on true 0 0 settings true 500 powered steps refl

initial-HasBackoff : HasBackoff initial
unfolding initial
initial-HasBackoff = omega arith

run-HasBackoff_example : HasBackoff (run steps powered).router
run-HasBackoff_example = run-HasBackoff steps powered initial-HasBackoff

initial_backoff : initial.backoff_ms ≡ backoff_initial_ms
unfolding initial
initial_backoff = refl

abbrev forwarding : Router
forwarding = record {
  backoff_ms = 2000;
  reconnect_at_ms = 0;
  reconnect_pending = false;
  uplink_ready = true;
  attempt_active = false;
  attempt_started_ms = 0;
  attempt_associated = true;
  last_disconnect_ms = 0;
  radio_stations = 2;
  radio_channel = 6;
  last_radio_poll_ms = 400;
  client_ip = record { a = 192; b = 168; c = 5; d = 2 };
  last_ap_assoc_ms = 300;
  lease_seen = true;
  soft_ap_failed = false;
  napt_enabled = true;
  last_channel = some 6;
  last_beat_ms = 0;
  last_beat = [];
}

-- A client that keeps its lease is forwarded eight seconds after it associated, across the wrap.
reconcile_napt-joined_example :
    Reconciled
      (forwarding.uplink_ready
        && (ltb 0 forwarding.radio_stations && (is_given none || leb 8000 8000)))
      true
      (joined 4294967200 4294967200 none forwarding)
      (reconcile_napt 7904 true (joined 4294967200 4294967200 none forwarding))
reconcile_napt-joined_example =
    reconcile_napt-joined 4294967200 4294967200 7904 8000 none true forwarding (omega arith)
      (omega arith) (omega arith) refl

abbrev lost : Timed
lost = record { now = 9100; schedule_now = 9100; what = sta_disconnected }

reconcile-events-IsBacked_example :
    IsBacked (events (lost ∷ []) (reconcile_napt 9000 true forwarding).0)
reconcile-events-IsBacked_example = reconcile-events-IsBacked 9000 true (lost ∷ []) forwarding

-- The gateway answered once and then missed three rounds.
abbrev dead : System
dead = record {
  router = forwarding;
  health = record idle_health { up = record idle_probe { fail_streak = 3; ever_ok = true } };
  watchdog = powered.watchdog;
  led = powered.led;
}

dead_uplink : uplink_dead dead ≡ true
unfolding uplink_dead
dead_uplink = refl

-- An attempt that began 100 ms before the clock wrapped.
abbrev attempting : System
attempting = record powered {
  router = record forwarding {
    uplink_ready = false;
    attempt_active = true;
    attempt_started_ms = 4294967196;
  };
}

attempt_bounded_example :
    let r = (bound_attempt (at_time 20000) attempting).0.router in
    (r.attempt_active ≡ false)
    × (r.reconnect_pending ≡ true)
    × (r.reconnect_at_ms ≡ add32 20000 2000)
attempt_bounded_example =
    attempt_bounded (at_time 20000) attempting 4294967196 20100 (omega arith) (omega arith) refl
      refl refl (omega arith)

abbrev waiting : System
waiting = record powered { router = record forwarding { uplink_ready = false } }

waiting-HasBackoff : HasBackoff waiting.router
waiting-HasBackoff = omega arith

reconnect_due_example :
    let s' = record waiting { router = (schedule_reconnect 5000 waiting.router).0 } in
    ((reconnect (at_time 7000) s').0.router.attempt_active ≡ true) ↔ (7000 ≤ 7000)
reconnect_due_example =
    reconnect_due (at_time 7000) waiting 5000 waiting-HasBackoff (omega arith) refl

own_disconnect-abandons_example :
    let r =
      (on_wifi_event 5001 5001 sta_disconnected (start_attempt 5000 settings waiting.router).0).0 in
    let r' = (bound_attempt (at_time 7001) (record waiting { router = r })).0.router in
    (r'.attempt_active ≡ false) × (r'.reconnect_pending ≡ true)
own_disconnect-abandons_example =
    own_disconnect-abandons (at_time 7001) waiting 5000 5001 5001 2000 settings (omega arith)
      (omega arith) refl (omega arith) (omega arith)

-- Both directions answer one round and then miss three.
abbrev pulse : ℕ → Tick
pulse now = record {
  uplink_ready = true;
  gateway = leased;
  client = leased;
  now = now;
  mark = now;
  up_outcome = started 1;
  down_outcome = started 2;
}

abbrev falls_silent : List Action
falls_silent =
    ticks (pulse 1)
    ∷ up_replies
    ∷ down_replies
    ∷ up_ends
    ∷ down_ends
    ∷ ticks (pulse 70000)
    ∷ up_ends
    ∷ down_ends
    ∷ ticks (pulse 140000)
    ∷ up_ends
    ∷ down_ends
    ∷ ticks (pulse 210000)
    ∷ up_ends
    ∷ down_ends
    ∷ ticks (pulse 280000)
    ∷ []

-- So both recoveries act.
falls_silent-gone :
    (gone (upstream_history falls_silent) ≡ true) × (gone (downstream_history falls_silent) ≡ true)
unfolding history upstream_seen downstream_seen ended silent answered Health.begin Health.initial
    Health.step Health.update Health.harvest Health.judge Health.continue Health.round_due
    Health.start_round Health.start_if_set Health.start_probe Health.open_probe
    Health.on_ping_success Health.on_ping_end
falls_silent-gone = (refl, refl)

recover_uplink_example : recover_uplink (at_time 280000) (probed falls_silent dead) ≡ (
    if dead.router.uplink_ready && gone (upstream_history falls_silent)
    then (
      torn_down 280000 (probed falls_silent dead),
      log recovery_uplink ∷ drop_station ∷ log (reconnect_scheduled dead.router.backoff_ms) ∷ [],
    )
    else (probed falls_silent dead, []))
recover_uplink_example = recover_uplink_lem falls_silent (at_time 280000) dead

recover_client_example :
    recover_client (client_probeable dead.router) (probed falls_silent dead) ≡ (
      if (ltb 0 dead.router.radio_stations && dead.router.lease_seen)
        && gone (downstream_history falls_silent)
      then (
        record (probed falls_silent dead) {
          health = Health.reset_streaks (probed falls_silent dead).health;
        },
        log recovery_client ∷ deauth_all ∷ [],
      )
      else (probed falls_silent dead, []))
recover_client_example = recover_client_lem falls_silent dead

leaver_still_probed_example :
    let r₁ = (on_wifi_event 500 500 (ap_sta_ip_assigned leased) forwarding).0 in
    let r₂ = (on_wifi_event 600 600 (ap_sta_disconnected 1) r₁).0 in
    (client_probeable r₂ ≡ true)
    × ((probe_tick (client_probeable r₂) (at_time 700) r₂).client ≡ leased)
leaver_still_probed_example =
    leaver_still_probed 500 500 600 600 0 leased (at_time 700) forwarding (omega arith)
