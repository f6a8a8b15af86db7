-- ===== src/Watchdog.antt =====
-- src/watchdog.h and src/watchdog.cpp: the recovery supervisor. A reading of `millis()` is an
-- argument, one for each call that the code makes. The words that loop() writes and the supervisor
-- task reads are the fields of a record; a function that writes them returns the new record.
pub mod Stall
pub mod Race
pub mod Lines
use spool_gate.Base.{
  ℕ, ◌+◌, ◌%◌, Bool, true, false, Option, none, some, List, [], ◌∷◌, String, ◌&&◌, not, leb, ◌==◌,
  if◌then◌else◌, sub32,
}

abbrev pub loop_stall_ms : ℕ
loop_stall_ms = 300000

abbrev pub uplink_stall_ms : ℕ
uplink_stall_ms = 300000

pub record Watchdog : Type 0 where
  pub last_loop_ms : ℕ
  pub uplink_down_since_ms : ℕ  -- 0 means the uplink is up
  pub armed : Bool
  pub reset_reason : String

unfoldable pub initial : Watchdog
initial = record {
  last_loop_ms = 0;
  uplink_down_since_ms = 0;
  armed = false;
  reset_reason = "(not read)";
}

-- `esp_reset_reason_t`; `other` is what the `default` label takes.
pub data ResetReason : Type 0 where
  power_on external software panic int_wdt task_wdt wdt deep_sleep brownout sdio usb jtag efuse
        pwr_glitch cpu_lockup other :
      ResetReason

unfoldable pub reset_reason_name : ResetReason → String
reset_reason_name power_on = "POWERON (clean power-up)"
reset_reason_name external = "EXT (external reset pin)"
reset_reason_name software = "SW (esp_restart — portal save or watchdog)"
reset_reason_name panic = "PANIC (crash)"
reset_reason_name int_wdt = "INT_WDT (interrupt watchdog)"
reset_reason_name task_wdt = "TASK_WDT (IDF task watchdog — CPU starved)"
reset_reason_name wdt = "WDT (other watchdog)"
reset_reason_name deep_sleep = "DEEPSLEEP"
reset_reason_name brownout = "BROWNOUT (supply sagged — undersized USB source?)"
reset_reason_name sdio = "SDIO"
reset_reason_name usb = "USB"
reset_reason_name jtag = "JTAG"
reset_reason_name efuse = "EFUSE error"
reset_reason_name pwr_glitch = "PWR_GLITCH (supply glitch)"
reset_reason_name cpu_lockup = "CPU_LOCKUP (double exception)"
reset_reason_name other = "UNKNOWN"

-- The stamp of a reading: 0 is taken by "the uplink is up".
unfoldable pub stamp : ℕ → ℕ
stamp now = if now == 0 then 1 else now

pub mark_uplink_down : ℕ → Watchdog → Watchdog
unfolding stamp
mark_uplink_down now w =
    if not (w.uplink_down_since_ms == 0) then w else record w { uplink_down_since_ms = stamp now }

-- `update(uplinkReady)`, with the readings of its two calls of `millis()`.
unfoldable pub update : Bool → ℕ → ℕ → Watchdog → Watchdog
unfolding mark_uplink_down
update uplink_ready now mark_now w =
    let w' = record w { last_loop_ms = now } in
    if uplink_ready then record w' { uplink_down_since_ms = 0 } else mark_uplink_down mark_now w'

-- `begin()`; `created` says whether the supervisor task could be started.
unfoldable pub begin : ResetReason → Bool → ℕ → ℕ → Watchdog → Watchdog
unfolding mark_uplink_down
begin reason created now mark_now w =
    let w' = record w { reset_reason = reset_reason_name reason; last_loop_ms = now } in
    record (mark_uplink_down mark_now w') { armed = created }

pub last_reset_reason : Watchdog → String
last_reset_reason w = w.reset_reason

-- Why the supervisor reboots the board.
pub data Cause : Type 0 where
  loop_stall uplink_stall : Cause

pub data Verdict : Type 0 where
  wait : Verdict
  reboot : Cause → Verdict

-- One round of the supervisor, with the words in the order in which it reads them. `reboot` does
-- not return, so the first cause wins.
unfoldable pub check : Bool → ℕ → ℕ → ℕ → Verdict
check armed now last_loop down_since =
    if not armed
    then wait
    else (if leb loop_stall_ms (sub32 now last_loop)
        then reboot loop_stall
        else (if not (down_since == 0) && leb uplink_stall_ms (sub32 now down_since)
            then reboot uplink_stall
            else wait))

-- The round with no write of loop() between its reads.
unfoldable pub poll : ℕ → Watchdog → Verdict
unfolding check
poll now w = check w.armed now w.last_loop_ms w.uplink_down_since_ms

-- One call of `update` with its readings.
pub record Beat : Type 0 where
  pub ready : Bool
  pub now : ℕ
  pub mark_now : ℕ

unfoldable pub beats : List Beat → Watchdog → Watchdog
unfolding update
beats [] w = w
beats (b ∷ bs) w = beats bs (update b.ready b.now b.mark_now w)

-- The round as it runs on the other core: loop() may call `update` after `now` was read, and again
-- before the second word is read.
pub poll_under : ℕ → List Beat → List Beat → Watchdog → Verdict
unfolding check beats
poll_under now before_last before_down w =
    let w₁ = beats before_last w in
    let w₂ = beats before_down w₁ in check w.armed now w₁.last_loop_ms w₂.uplink_down_since_ms
