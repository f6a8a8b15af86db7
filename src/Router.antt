-- ===== src/Router.antt =====
-- src/main.cpp: the state of the router and the functions that its event handler and its loop share.
-- A reading of `millis()` and what the driver answers are arguments; what the code asks of the driver
-- and what it logs are the effects that a function returns beside the new state. The children hold
-- the event handler, the loop, and what is proved of them.
pub mod Events
pub mod Heartbeat
pub mod Loop
pub mod Lines
pub mod Fit
pub mod Link
pub mod Backoff
pub mod Forwarding
pub mod Timeouts
pub mod Recovery
use spool_gate.Base.{
  ℕ, ℤ, ◌+◌, ◌*◌, ◌%◌, min, Bool, true, false, not, ◌&&◌, ◌||◌, Option, none, some, List, [], ◌∷◌,
  ◌++◌, map, Text, ltb, leb, ◌==◌, if◌then◌else◌, add32, sub32, u32_mod, Address, unset,
}
use spool_gate.Config.{Settings}
use spool_gate.Net.Napt as Switch
use spool_gate.Net.Uplink

abbrev pub backoff_initial_ms : ℕ
backoff_initial_ms = 2000

abbrev pub backoff_max_ms : ℕ
backoff_max_ms = 15000

abbrev pub attempt_timeout_ms : ℕ
attempt_timeout_ms = 20000

abbrev pub attempt_quiet_ms : ℕ
attempt_quiet_ms = 2000

abbrev pub napt_lease_grace_ms : ℕ
napt_lease_grace_ms = 8000

abbrev pub uplink_fail_streak : ℕ
uplink_fail_streak = 3

abbrev pub client_fail_streak : ℕ
client_fail_streak = 3

abbrev pub idle_beat_ms : ℕ
idle_beat_ms = 600000

abbrev pub radio_poll_ms : ℕ
radio_poll_ms = 500

-- The globals of the file, the statics of `loop()`, and the flag of src/net/napt.cpp.
pub record Router : Type 0 where
  pub backoff_ms : ℕ
  pub reconnect_at_ms : ℕ
  pub reconnect_pending : Bool
  pub uplink_ready : Bool
  pub attempt_active : Bool
  pub attempt_started_ms : ℕ
  pub attempt_associated : Bool
  pub last_disconnect_ms : ℕ
  pub radio_stations : ℕ
  pub radio_channel : ℕ
  pub last_radio_poll_ms : ℕ
  pub client_ip : Address
  pub last_ap_assoc_ms : ℕ
  pub lease_seen : Bool
  pub soft_ap_failed : Bool
  pub napt_enabled : Bool
  pub last_channel : Option ℕ  -- `none` is the code's -1
  pub last_beat_ms : ℕ
  pub last_beat : Text

unfoldable pub initial : Router
initial = record {
  backoff_ms = backoff_initial_ms;
  reconnect_at_ms = 0;
  reconnect_pending = false;
  uplink_ready = false;
  attempt_active = false;
  attempt_started_ms = 0;
  attempt_associated = false;
  last_disconnect_ms = 0;
  radio_stations = 0;
  radio_channel = 0;
  last_radio_poll_ms = 0;
  client_ip = unset;
  last_ap_assoc_ms = 0;
  lease_seen = false;
  soft_ap_failed = false;
  napt_enabled = false;
  last_channel = none;
  last_beat_ms = 0;
  last_beat = [];
}

-- The lines that are logged, without their time stamps.
pub data Line : Type 0 where
  sta_associated sta_got_ip napt_off_uplink_lost printer_associated printer_left : Line
  sta_addresses : Address → Address → Address → ℕ → Line  -- ip gateway dns channel
  lease_issued : Address → Line
  admin_portal : Address → Line
  banner : Text → Line  -- with the version of the core
  napt_on napt_off recovery_uplink recovery_client : Line
  reconnect_scheduled : ℕ → Line
  channel_moved : ℕ → ℕ → Line
  heartbeat : Text → ℤ → Line
  attempt_timed_out attempt_failed sta_reconnecting sta_connecting ap_up ap_failed : Line

pub data Effect : Type 0 where
  log : Line → Effect
  napt : Switch.Call → Effect
  station : Uplink.Call → Effect
  drop_station deauth_all start_portal : Effect

unfoldable pub start_attempt : ℕ → Settings → Router → Router × List Effect
start_attempt now settings r = (
  record r {
    attempt_active = true;
    attempt_started_ms = now;
    attempt_associated = false;
    last_disconnect_ms = 0;
  },
  map station (Uplink.begin settings),
)

-- `now` and `mark` are the two readings of the clock.
unfoldable pub poll_radio : ℕ → ℕ → ℕ → ℕ → Router → Router
poll_radio now mark stations channel r =
    if not (r.last_radio_poll_ms == 0) && ltb (sub32 now r.last_radio_poll_ms) radio_poll_ms
    then r
    else record r { last_radio_poll_ms = mark; radio_stations = stations; radio_channel = channel }

-- The parts of the decision of `reconcileNapt`.
unfoldable pub lease_settled : ℕ → Router → Bool
lease_settled now r =
    r.lease_seen
    || (not (r.last_ap_assoc_ms == 0) && leb napt_lease_grace_ms (sub32 now r.last_ap_assoc_ms))

unfoldable pub want_napt : ℕ → Router → Bool
unfolding lease_settled
want_napt now r = r.uplink_ready && (ltb 0 r.radio_stations && lease_settled now r)

unfoldable pub enable_napt : Bool → Router → Router × List Effect
enable_napt ok r =
    let (enabled, calls) = Switch.enable ok r.napt_enabled in
    (record r { napt_enabled = enabled }, map napt calls)

unfoldable pub disable_napt : Router → Router × List Effect
disable_napt r =
    let (enabled, calls) = Switch.disable r.napt_enabled in
    (record r { napt_enabled = enabled }, map napt calls)

abbrev pub bool_eq : Bool → Bool → Bool
bool_eq true b = b
bool_eq false b = not b

abbrev pub and_log : Line → Router × List Effect → Router × List Effect
and_log l (r, es) = (r, es ++ log l ∷ [])

-- `ok` is what the driver answers if NAPT is switched on.
unfoldable pub reconcile_napt : ℕ → Bool → Router → Router × List Effect
unfolding want_napt
reconcile_napt now ok r =
    if bool_eq (want_napt now r) r.napt_enabled
    then (r, [])
    else (if want_napt now r
        then and_log napt_on (enable_napt ok r)
        else and_log napt_off (disable_napt r))

unfoldable pub schedule_reconnect : ℕ → Router → Router × List Effect
schedule_reconnect now r = (
  record r {
    reconnect_at_ms = add32 now r.backoff_ms;
    reconnect_pending = true;
    backoff_ms = min (r.backoff_ms * 2 % u32_mod) backoff_max_ms;
  },
  log (reconnect_scheduled r.backoff_ms) ∷ [],
)
