-- ===== src/Tests/Supervisor.antt =====
-- The supervisor and the status LED at concrete times.
use spool_gate.Base.{◌≡◌, refl, true, none, some, [], ◌∷◌, arith, add32}
use spool_gate.Watchdog as W
use spool_gate.Watchdog.{
  Watchdog, Beat, beats, poll, poll_under, wait, reboot, loop_stall, software,
}
use spool_gate.Watchdog.Stall.{
  observe, Call, Truth, Shows, millis, beats_of, observe_all, verdict, stamp_of, poll-verdict,
  slack,
}
use spool_gate.Watchdog.Race.{late_beat-reboots}
use spool_gate.StatusLed.{connected}
use spool_gate.StatusLed.Cache as Cache
use spool_gate.StatusLed.Cache.{Device, update-shows, begins, updates, wanted}

-- loop() runs 96 ms before the clock wraps, and the supervisor polls 300 s after that.
abbrev last_call : Call
last_call = record { ready = true; at = 4294967200; mark_at = 4294967200 }

abbrev armed_dog : Watchdog
armed_dog = record {
  last_loop_ms = 4294960000;
  uplink_down_since_ms = 4294960000;
  armed = true;
  reset_reason = "";
}

abbrev truth : Truth
truth = record { last = 4294960000; down = some 4294960000 }

armed_dog-Shows : Shows armed_dog truth
unfolding stamp_of W.stamp
armed_dog-Shows = record { last_shown = refl; down_shown = refl }

poll-verdict_example :
    poll (millis 4295267200) (beats (beats_of (last_call ∷ [])) armed_dog)
    ≡ verdict 4295267200 (observe_all (last_call ∷ []) truth)
unfolding observe_all observe slack
poll-verdict_example =
    poll-verdict (last_call ∷ []) armed_dog truth 4295267200 armed_dog-Shows refl (omega arith) tt

late_beat-reboots_example :
    poll_under 4294960000
      (record { ready = true; now = add32 4294960000 1; mark_now = 0 } ∷ [])
      []
      armed_dog
    ≡ reboot loop_stall
late_beat-reboots_example =
    late_beat-reboots 4294960000 1 true 0 [] armed_dog (omega arith) (omega arith) (omega arith)
      refl

abbrev dark : Device
dark = record { led = record { brightness = 64; last_written = none }; shown = none }

update-shows_example :
    (Cache.step (updates connected 0) (Cache.run (begins ∷ updates connected 0 ∷ []) dark)).shown
    ≡ some (wanted (Cache.run (begins ∷ updates connected 0 ∷ []) dark).led.brightness connected 0)
update-shows_example = update-shows (begins ∷ updates connected 0 ∷ []) dark connected 0 tt
