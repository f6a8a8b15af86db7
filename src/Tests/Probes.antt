-- ===== src/Tests/Probes.antt =====
-- The probes in concrete runs.
use spool_gate.Base.{
  ℕ, ◌+◌, ◌≤◌, ◌≡◌, refl, true, false, none, some, List, [], ◌∷◌, All, Address, unset,
}
use spool_gate.Health.{
  Health, Probe, Tick, Action, ticks, resets, up_replies, up_ends, down_ends, started, not_started,
  initial, begin, run, update, harvest, unknown,
}
use spool_gate.Health as Step
use spool_gate.Health.Sessions.{IsSafe, opens, deletes, live_sessions, IsNamed}
use spool_gate.Health.Ledger.{run-Sessions, ledger, open_entry}

abbrev pub idle_probe : Probe
idle_probe = record {
  name = "";
  handle = none;
  replies = 0;
  finished = false;
  running = false;
  result = unknown;
  fail_streak = 0;
  ever_ok = false;
}

abbrev pub idle_health : Health
idle_health = record { up = idle_probe; down = idle_probe; last_round_ms = 0 }

abbrev tick : ℕ → Address → Tick
tick now client = record {
  uplink_ready = true;
  gateway = record { a = 10; b = 0; c = 0; d = 1 };
  client = client;
  now = now;
  mark = now;
  up_outcome = started 1;
  down_outcome = not_started 2;
}

abbrev actions : List Action
actions =
    ticks (tick 1 (record { a = 192; b = 168; c = 5; d = 2 }))
    ∷ up_replies
    ∷ up_ends
    ∷ ticks (tick 2 unset)
    ∷ resets
    ∷ ticks (tick 60001 unset)
    ∷ []

run-Sessions_example :
    let (h, es) = run actions (begin initial) in
    IsSafe h
    × (ledger 1 es 0 ≡ some (open_entry 1 h))
    × (opens es ≡ deletes es + live_sessions h)
    × (live_sessions h ≤ 2)
    × All IsNamed es
run-Sessions_example = run-Sessions actions 1

-- The first round opens two sessions and one cannot be started; after the third tick one runs.
opens-run : opens (run actions (begin initial)).1 ≡ 3
unfolding run Step.step update harvest begin initial Step.continue Step.on_ping_end
    Step.on_ping_success Step.reset_streaks
opens-run = refl
