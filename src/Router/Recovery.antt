-- ===== src/Router/Recovery.antt =====
-- The two recoveries of `loop`, with the probes that drive them.
use spool_gate.Base.{
  ℕ, suc, ◌*◌, ◌%◌, min, u32_mod, add32, ap, if◌then◌else◌, ◌<◌, ◌≡◌, Bool, true, false, List, [],
  ◌∷◌, arith, leb, ltb, ◌&&◌, Address, is_unset,
}
use spool_gate.Health
use spool_gate.Health.{Probe, Action, run, begin, initial}
use spool_gate.Health.Streak.{
  Happening, history, upstream_seen, downstream_seen, silent, answered, Tells, run-Tells_begin,
}
use spool_gate.Router.{
  Router, log, deauth_all, drop_station, recovery_client, recovery_uplink, reconnect_scheduled,
  schedule_reconnect,
}
use spool_gate.Router.Events.{ap_sta_ip_assigned, ap_sta_disconnected, on_wifi_event}
use spool_gate.Router.Loop.{
  System, Inputs, recover_client, recover_uplink, uplink_dead, client_dead, client_probeable,
  probe_tick,
}

-- The probes as they are after any calls of loop() and any callbacks of the ping task since boot.
abbrev pub probed : List Action → System → System
probed actions s = record s { health = (run actions (begin initial)).0 }

-- What has happened to a direction by then.
abbrev pub upstream_history : List Action → List Happening
upstream_history actions = history upstream_seen actions (begin initial)

abbrev pub downstream_history : List Action → List Happening
downstream_history actions = history downstream_seen actions (begin initial)

abbrev pub gone : List Happening → Bool
gone hs = answered hs && leb 3 (silent 0 hs)

dead-gone :
    (k : ℕ) (b : Bool) (p : Probe)
    → Tells k b p
    → (p.ever_ok && leb 3 p.fail_streak) ≡ (b && leb 3 k)
dead-gone k b p w = ground arith

-- What a recovery of the uplink leaves.
abbrev pub torn_down : ℕ → System → System
torn_down now s = record s {
  router = record (s.router) {
    uplink_ready = false;
    attempt_active = false;
    reconnect_at_ms = add32 now s.router.backoff_ms;
    reconnect_pending = true;
    backoff_ms = min (s.router.backoff_ms * 2 % u32_mod) 15000;
  };
  health = Health.reset_streaks s.health;
}

-- The recovery of the uplink, after any calls of loop() and any callbacks of the ping task since boot: if
-- the uplink is up, its gateway has answered some round since boot, and the last three rounds at least
-- were silent since its failures were last forgotten (by a recovery or while the uplink had no address),
-- the link is dropped, a reconnect is scheduled after the backoff, and the failures of both directions are
-- forgotten; else nothing is done. A gateway that never answers, by policy, is never taken for dead.
pub recover_uplink_lem :
    (actions : List Action) (i : Inputs) (s : System)
    → recover_uplink i (probed actions s) ≡ (
        if s.router.uplink_ready && gone (upstream_history actions)
        then (
          torn_down i.recover_now (probed actions s),
          log recovery_uplink ∷ drop_station ∷ log (reconnect_scheduled s.router.backoff_ms) ∷ [],
        )
        else (probed actions s, []))
unfolding recover_uplink uplink_dead schedule_reconnect
recover_uplink_lem actions i s =
    ap
      (λ b.
        if s.router.uplink_ready && b
        then (
          torn_down i.recover_now (probed actions s),
          log recovery_uplink ∷ drop_station ∷ log (reconnect_scheduled s.router.backoff_ms) ∷ [],
        )
        else (probed actions s, []))
      (dead-gone _ _ (run actions (begin initial)).0.up (run-Tells_begin actions).0)

-- The recovery of the client, after any calls of loop() and any callbacks of the ping task since boot: if a
-- client is joined and leased, the downstream direction has answered some round since boot, and its last
-- three rounds at least were silent since its failures were last forgotten by a recovery, every station is
-- deauthenticated and the failures of both directions are forgotten; else nothing is done. It asks for an
-- answer since boot, not for one of the client that is joined.
pub recover_client_lem :
    (actions : List Action) (s : System)
    → recover_client (client_probeable s.router) (probed actions s) ≡ (
        if (ltb 0 s.router.radio_stations && s.router.lease_seen)
          && gone (downstream_history actions)
        then (
          record (probed actions s) { health = Health.reset_streaks (probed actions s).health },
          log recovery_client ∷ deauth_all ∷ [],
        )
        else (probed actions s, []))
unfolding recover_client client_dead client_probeable
recover_client_lem actions s =
    ap
      (λ b.
        if (ltb 0 s.router.radio_stations && s.router.lease_seen) && b
        then (
          record (probed actions s) { health = Health.reset_streaks (probed actions s).health },
          log recovery_client ∷ deauth_all ∷ [],
        )
        else (probed actions s, []))
      (dead-gone _ _ (run actions (begin initial)).0.down (run-Tells_begin actions).1)

-- A client that leaves while another stays joined leaves its address behind: the probes go on to aim
-- at it, as if it were the address of the one that stayed.
pub leaver_still_probed :
    (t t' u u' n : ℕ) (ip : Address) (i : Inputs) (r : Router)
    → 0 < r.radio_stations
    → let r₁ = (on_wifi_event t t' (ap_sta_ip_assigned ip) r).0 in
      let r₂ = (on_wifi_event u u' (ap_sta_disconnected (suc n)) r₁).0 in
      (client_probeable r₂ ≡ true) × ((probe_tick (client_probeable r₂) i r₂).client ≡ ip)
unfolding on_wifi_event client_probeable probe_tick
leaver_still_probed t t' u u' n ip i r joined = ground arith

-- When the last client leaves, nothing is left to probe, and no lease that would switch NAPT on.
pub last_leaver_forgotten :
    (t t' : ℕ) (i : Inputs) (r : Router)
    → let r' = (on_wifi_event t t' (ap_sta_disconnected 0) r).0 in
      (client_probeable r' ≡ false)
      × (is_unset r'.client_ip ≡ true)
      × (is_unset (probe_tick (client_probeable r') i r').client ≡ true)
      × (r'.last_ap_assoc_ms ≡ 0)
unfolding on_wifi_event client_probeable probe_tick
last_leaver_forgotten t t' i r = ground arith
