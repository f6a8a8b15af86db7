-- ===== src/Router/Loop.antt =====
-- `setup()` and `loop()` of src/main.cpp, phase by phase, in the production build (NAT_DEBUG 0). The
-- portal's own part of the loop is in `Portal`, and an iteration with a request is in `Board`.
use spool_gate.Base.{
  ℕ, ℤ, Bool, false, not, ◌&&◌, ◌||◌, Option, none, some, List, [], ◌∷◌, ◌++◌, Text, text_eq, ltb,
  leb, ◌==◌, if◌then◌else◌, sub32, Address, unset,
}
use spool_gate.Config.{Settings}
use spool_gate.Health
use spool_gate.Health.{Health}
use spool_gate.StatusLed
use spool_gate.StatusLed.{Led}
use spool_gate.Watchdog
use spool_gate.Watchdog.{Watchdog}
use spool_gate.Router.Heartbeat.{beat_text}
use spool_gate.Router.{
  Router, Effect, log, drop_station, deauth_all, start_portal, recovery_uplink, recovery_client,
  channel_moved, heartbeat, attempt_timed_out, attempt_failed, sta_reconnecting, sta_connecting,
  ap_up, admin_portal, banner, ap_failed, start_attempt, poll_radio, reconcile_napt,
  schedule_reconnect, attempt_timeout_ms, attempt_quiet_ms, uplink_fail_streak, client_fail_streak,
  idle_beat_ms,
}

pub record System : Type 0 where
  pub router : Router
  pub health : Health
  pub watchdog : Watchdog
  pub led : Led

-- What the driver answers and what the clock reads at each call in one iteration.
pub record Inputs : Type 0 where
  pub settings : Settings
  pub watchdog_now : ℕ
  pub watchdog_mark : ℕ
  pub poll_now : ℕ
  pub poll_mark : ℕ
  pub stations : ℕ
  pub channel : ℕ
  pub napt_now : ℕ
  pub napt_ok : Bool
  pub gateway : Address
  pub probe_now : ℕ
  pub probe_mark : ℕ
  pub up_outcome : Health.Outcome
  pub down_outcome : Health.Outcome
  pub recover_now : ℕ
  pub beat_now : ℕ
  pub beat_mark : ℕ
  pub rssi : ℤ
  pub led_now : ℕ
  pub hard_now : ℕ
  pub quiet_now : ℕ
  pub retry_now : ℕ
  pub due_now : ℕ
  pub start_now : ℕ

-- A phase returns the new state and its effects; phases run one after another.
abbrev pub Phase : Type 0
Phase = System × List Effect

infixl 5 ◌>>=◌
abbrev pub ◌>>=◌ : Phase → (System → Phase) → Phase
◌>>=◌ m f = let (s, e) = m in let (s', e') = f s in (s', e ++ e')

abbrev on_router : System → Router × List Effect → Phase
on_router s (r, e) = (record s { router = r }, e)

unfoldable pub feed_watchdog : Inputs → System → Phase
feed_watchdog i s = (
  record s {
    watchdog = Watchdog.update s.router.uplink_ready i.watchdog_now i.watchdog_mark s.watchdog;
  },
  [],
)

unfoldable pub sample_radio : Inputs → System → Phase
sample_radio i s =
    (record s { router = poll_radio i.poll_now i.poll_mark i.stations i.channel s.router }, [])

unfoldable pub reconcile : Inputs → System → Phase
reconcile i s = on_router s (reconcile_napt i.napt_now i.napt_ok s.router)

unfoldable pub client_probeable : Router → Bool
client_probeable r = ltb 0 r.radio_stations && r.lease_seen

unfoldable pub probe_tick : Bool → Inputs → Router → Health.Tick
probe_tick probeable i r = record {
  uplink_ready = r.uplink_ready;
  gateway = i.gateway;
  client = if probeable then r.client_ip else unset;
  now = i.probe_now;
  mark = i.probe_mark;
  up_outcome = i.up_outcome;
  down_outcome = i.down_outcome;
}

-- The effects of the probes are those of `Health.update`.
unfoldable pub probe : Bool → Inputs → System → Phase
unfolding probe_tick
probe probeable i s =
    (record s { health = (Health.update (probe_tick probeable i s.router) s.health).0 }, [])

unfoldable pub uplink_dead : System → Bool
uplink_dead s =
    s.router.uplink_ready
    && (Health.upstream_ever_ok s.health
        && leb uplink_fail_streak (Health.upstream_fail_streak s.health))

unfoldable pub recover_uplink : Inputs → System → Phase
unfolding uplink_dead
recover_uplink i s =
    if uplink_dead s
    then (let (r, e) =
          schedule_reconnect i.recover_now
            (record (s.router) { uplink_ready = false; attempt_active = false }) in
        (
          record s { router = r; health = Health.reset_streaks s.health },
          log recovery_uplink ∷ drop_station ∷ e,
        ))
    else (s, [])

unfoldable pub client_dead : Bool → System → Bool
client_dead probeable s =
    probeable
    && (Health.downstream_ever_ok s.health
        && leb client_fail_streak (Health.downstream_fail_streak s.health))

unfoldable pub recover_client : Bool → System → Phase
unfolding client_dead
recover_client probeable s =
    if client_dead probeable s
    then (
      record s { health = Health.reset_streaks s.health },
      log recovery_client ∷ deauth_all ∷ [],
    )
    else (s, [])

abbrev note_channel : Option ℕ → ℕ → Router → Router × List Effect
note_channel none channel r = (record r { last_channel = some channel }, [])
note_channel (some last) channel r =
    if channel == last
    then (r, [])
    else (record r { last_channel = some channel }, log (channel_moved last channel) ∷ [])

unfoldable pub watch_channel : System → Phase
watch_channel s = on_router s (note_channel s.router.last_channel s.router.radio_channel s.router)

unfoldable pub beat : Inputs → System → Phase
beat i s =
    let text = beat_text s.router s.health in
    if s.router.last_beat_ms == 0
      || (not (text_eq text s.router.last_beat)
          || leb idle_beat_ms (sub32 i.beat_now s.router.last_beat_ms))
    then (
      record s { router = record (s.router) { last_beat_ms = i.beat_mark; last_beat = text } },
      log (heartbeat text i.rssi) ∷ [],
    )
    else (s, [])

unfoldable pub led_state : Router → StatusLed.State
led_state r =
    if r.soft_ap_failed
    then StatusLed.fault
    else (if not r.uplink_ready
        then StatusLed.upstream_down
        else (if r.radio_stations == 0 then StatusLed.no_clients else StatusLed.connected))

-- The writes of the LED are those of `StatusLed.update`.
unfoldable pub show_state : Inputs → System → Phase
show_state i s = (record s { led = (StatusLed.update (led_state s.router) i.led_now s.led).0 }, [])

unfoldable pub hard_timeout : Inputs → Router → Bool
hard_timeout i r = leb attempt_timeout_ms (sub32 i.hard_now r.attempt_started_ms)

unfoldable pub gave_up : Inputs → Router → Bool
gave_up i r =
    not r.attempt_associated
    && (not (r.last_disconnect_ms == 0)
        && leb attempt_quiet_ms (sub32 i.quiet_now r.last_disconnect_ms))

unfoldable pub bound_attempt : Inputs → System → Phase
unfolding hard_timeout gave_up
bound_attempt i s =
    if s.router.attempt_active && (hard_timeout i s.router || gave_up i s.router)
    then (let (r, e) =
          schedule_reconnect i.retry_now (record (s.router) { attempt_active = false }) in
        (
          record s { router = r },
          log (if hard_timeout i s.router then attempt_timed_out else attempt_failed) ∷ e,
        ))
    else (s, [])

unfoldable pub reconnect : Inputs → System → Phase
reconnect i s =
    if s.router.reconnect_pending && leb s.router.reconnect_at_ms i.due_now
    then (let (r, e) =
          start_attempt i.start_now i.settings (record (s.router) { reconnect_pending = false }) in
        (record s { router = r }, log sta_reconnecting ∷ e))
    else (s, [])

-- The part of `loop` behind `portal::loop()`.
abbrev pub behind_portal : Inputs → System → Phase
behind_portal i s₁ = do
  s₂ ← sample_radio i s₁
  s₃ ← reconcile i s₂
  s₄ ← probe (client_probeable s₃.router) i s₃
  s₅ ← recover_uplink i s₄
  s₆ ← recover_client (client_probeable s₃.router) s₅
  s₇ ← watch_channel s₆
  s₈ ← beat i s₇
  s₉ ← show_state i s₈
  s₁₀ ← bound_attempt i s₉
  reconnect i s₁₀

-- An iteration in which no request is waiting and no restart is due.
unfoldable pub loop : Inputs → System → Phase
loop i s = do s₁ ← feed_watchdog i s; behind_portal i s₁

-- The line that `setup()` logs first.
unfoldable pub announce : Text → List Effect
announce core = log (banner core) ∷ []

-- `setup()` behind the start of the serial port and the log: `ap_ok` is what `softap::begin` returns.
unfoldable pub setup : Watchdog.ResetReason → Bool → ℕ → ℕ → Settings → Bool → ℕ → System → Phase
setup reason created wd_now wd_mark settings ap_ok start_now s =
    let led = (StatusLed.begin (StatusLed.set_brightness settings.led_brightness s.led)).0 in
    let (r, e) =
      start_attempt start_now settings
        (record (s.router) { soft_ap_failed = not ap_ok || s.router.soft_ap_failed }) in
    (
      record s {
        router = r;
        health = Health.begin s.health;
        watchdog = Watchdog.begin reason created wd_now wd_mark s.watchdog;
        led = led;
      },
      (if ap_ok
            then log ap_up ∷ start_portal ∷ log (admin_portal settings.ap_ip) ∷ []
            else log ap_failed ∷ [])
          ++ (e ++ log sta_connecting ∷ []),
    )
