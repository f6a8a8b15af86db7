-- ===== src/Board.antt =====
-- The whole board: src/main.cpp over the portal, the flash and the supervisor, from one boot to the
-- next. The settings are one global that the portal sets and the router reads; a restart keeps only
-- the flash. What is logged is left to `Logbuf`.
pub mod Stored
pub mod Uplink
pub mod Restart
use spool_gate.Base.{ℕ, Bool, Option, none, some, List, [], ◌∷◌, if◌then◌else◌}
use spool_gate.Config.{Settings, Secrets, AddressText}
use spool_gate.Config as Config
use spool_gate.Config.Nvs.{Store}
use spool_gate.Health
use spool_gate.StatusLed
use spool_gate.Watchdog
use spool_gate.Router
use spool_gate.Router.Events.{Event, on_wifi_event}
use spool_gate.Router.Loop.{System, Inputs, feed_watchdog, behind_portal, setup}
use spool_gate.Portal.{Strings, Request, Portal, Env}
use spool_gate.Portal.Handlers.{Dispatch, restart_due}
use spool_gate.Portal.Persist.{serve_stored}

-- What a boot finds: the factory defaults of the build, and what the chip and the driver answer.
pub record Boot : Type 0 where
  pub secrets : Secrets
  pub reason : Watchdog.ResetReason
  pub created : Bool
  pub watchdog_now : ℕ
  pub watchdog_mark : ℕ
  pub ap_ok : Bool
  pub start_now : ℕ

-- The callbacks of the ping task.
pub data Ping : Type 0 where
  up_replies up_ends down_replies down_ends : Ping

abbrev pub action_of : Ping → Health.Action
action_of up_replies = Health.up_replies
action_of up_ends = Health.up_ends
action_of down_replies = Health.down_replies
action_of down_ends = Health.down_ends

-- The statics of the firmware as they are linked.
unfoldable pub linked : System
linked = record {
  router = Router.initial;
  health = Health.initial;
  watchdog = Watchdog.initial;
  led = StatusLed.initial;
}

unfoldable pub fresh_portal : Settings → Portal
fresh_portal s = record {
  settings = s;
  session = [];
  session_expiry_ms = 0;
  reboot_at_ms = 0;
  speed_bytes = 0;
  speed_ms = 0;
}

-- What `/stat.json` and the rest of a request see of the system.
unfoldable pub seen : System → Env → Env
seen s env = record env {
  vitals = record (env.vitals) {
    napt = s.router.napt_enabled;
    health_up = Health.upstream s.health;
    health_down = Health.downstream s.health;
  };
}

-- What happens to the board. A restart boots it again, as does a power cut at any moment.
pub data Moment : Type 0 where
  passes : Dispatch → Inputs → Option (Env × Request) → ℕ → Boot → Moment
  events : ℕ → ℕ → Event → Moment
  pings : Ping → Moment
  supervises : ℕ → Boot → Moment
  power_cuts : Boot → Moment

module _ (strings : Strings) (ips : AddressText) (nvs : Store) where
  open nvs use {State}

  pub record Board : Type 0 where
    pub system : System
    pub portal : Portal
    pub flash : State

  -- What ends an iteration, or a round of the supervisor.
  pub data Outcome : Type 0 where
    goes_on : Board → Outcome
    restarts : State → Outcome

  -- `setup()` on what the flash holds.
  unfoldable pub power_up : Boot → State → Board
  power_up boot s =
      let (settings, s') = Config.begin nvs ips (boot.secrets) s in
      record {
        system =
            (setup (boot.reason) (boot.created) (boot.watchdog_now) (boot.watchdog_mark) settings
              (boot.ap_ok) (boot.start_now) linked).0;
        portal = fresh_portal settings;
        flash = s';
      }

  unfoldable pub serve_one :
      Dispatch → Option (Env × Request) → System → Portal × State → Portal × State
  serve_one dispatch none s ps = ps
  serve_one dispatch (some (env, q)) s ps = serve_stored strings ips nvs dispatch (seen s env) q ps

  -- `loop()`, with a request if one is waiting; `now` is the clock at the end of `portal::loop()`.
  unfoldable pub pass : Dispatch → Inputs → Option (Env × Request) → ℕ → Board → Outcome
  pass dispatch i request now b =
      let fed = (feed_watchdog i (b.system)).0 in
      let (p, s) = serve_one dispatch request fed (b.portal, b.flash) in
      if restart_due now p
      then restarts s
      else goes_on (record {
        system = (behind_portal (record i { settings = p.settings }) fed).0;
        portal = p;
        flash = s;
      })

  -- A round of the supervisor.
  unfoldable pub supervise : ℕ → Board → Outcome
  supervise now b = elim (Watchdog.poll now (b.system.watchdog)) [
    | Watchdog.wait ↦ goes_on b
    | Watchdog.reboot cause ↦ restarts (b.flash)
  ]

  unfoldable pub resume : Boot → Outcome → Board
  resume boot (goes_on b) = b
  resume boot (restarts s) = power_up boot s

  unfoldable pub happen : Moment → Board → Board
  happen (passes dispatch i request now boot) b = resume boot (pass dispatch i request now b)
  happen (events now schedule_now e) b = record b {
    system = record (b.system) { router = (on_wifi_event now schedule_now e (b.system.router)).0 };
  }
  happen (pings ping) b = record b {
    system = record (b.system) { health = (Health.step (action_of ping) (b.system.health)).0 };
  }
  happen (supervises now boot) b = resume boot (supervise now b)
  happen (power_cuts boot) b = power_up boot (b.flash)

  -- A life of the board, over any number of boots.
  unfoldable pub live : List Moment → Board → Board
  live [] b = b
  live (m ∷ ms) b = live ms (happen m b)
