-- ===== src/Watchdog/Race.antt =====
-- The supervisor's reads against writes of loop() on the other core. The clock is read before the
-- words that are subtracted from it.
use spool_gate.Base.{
  ℕ, ◌+◌, ◌-◌, ◌<◌, ◌≤◌, ◌≡◌, refl, Bool, true, false, List, [], ◌∷◌, arith, u32_mod, add32, IsU32,
}
use spool_gate.Watchdog.{
  Watchdog, Beat, reboot, loop_stall, uplink_stall, poll, poll_under, loop_stall_ms,
  uplink_stall_ms, update, stamp,
}

-- With no write in between, the round is `poll`.
pub poll_under-poll : (now : ℕ) (w : Watchdog) → poll_under now [] [] w ≡ poll now w
unfolding poll_under poll
poll_under-poll now w = refl

-- If loop() runs in the gap between the supervisor's reading of the clock and its reading of the
-- loop's stamp, and in a later millisecond, an armed supervisor reboots the board at once for a
-- stalled loop, however lately loop() had run before and whatever else it does in the round.
pub late_beat-reboots :
    (now d : ℕ) (ready : Bool) (mark_now : ℕ) (before_down : List Beat) (w : Watchdog)
    → IsU32 now
    → 0 < d
    → d ≤ u32_mod - loop_stall_ms
    → w.armed ≡ true
    → poll_under now
        (record { ready = ready; now = add32 now d; mark_now = mark_now } ∷ [])
        before_down
        w
      ≡ reboot loop_stall
unfolding poll_under update
late_beat-reboots now d ready mark_now before_down w h lo hi on = ground arith

-- The same gap before the second word: the uplink goes down in a later millisecond than the one
-- that the supervisor read, and the board is rebooted for five minutes without an uplink.
pub late_down-reboots :
    (now d at : ℕ) (w : Watchdog)
    → IsU32 now
    → 0 < d
    → now + d < u32_mod
    → d ≤ u32_mod - uplink_stall_ms
    → w.armed ≡ true
    → w.last_loop_ms ≡ now
    → w.uplink_down_since_ms ≡ 0
    → poll_under now [] (record { ready = false; now = at; mark_now = now + d } ∷ []) w
      ≡ reboot uplink_stall
unfolding poll_under update stamp
late_down-reboots now d at w h lo nowrap hi on fresh up = ground arith
