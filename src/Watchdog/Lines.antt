-- ===== src/Watchdog/Lines.antt =====
-- What src/watchdog.cpp logs, as text. The newline at the end is left out.
use spool_gate.Base.{
  ℕ, refl, Bool, true, false, List, [], ◌∷◌, ◌++◌, Text, codes, stamped, utf8, All, if◌then◌else◌,
}
use spool_gate.Watchdog.{
  Cause, loop_stall, uplink_stall, ResetReason, power_on, external, software, panic, int_wdt,
  task_wdt, wdt, deep_sleep, brownout, sdio, usb, jtag, efuse, pwr_glitch, cpu_lockup, other,
  reset_reason_name,
}
use spool_gate.Logbuf.Pieces.{IsPiece, append-IsPiece, literal, stamped-IsPiece}

unfoldable pub cause_text : Cause → Text
cause_text loop_stall = codes "loop() has not run for 5 min"
cause_text uplink_stall = codes "no upstream IP for 5 min"

-- The last line before the supervisor restarts the board.
unfoldable pub reboot_line : ℕ → Cause → Text
reboot_line now cause =
    stamped now ++ (codes "WATCHDOG: " ++ (cause_text cause ++ utf8 " — rebooting"))

-- The lines of `begin`, with the readings of the clock that stamp them.
unfoldable pub begin_lines : ResetReason → Bool → ℕ → ℕ → List Text
begin_lines reason created now later =
    (stamped now ++ (codes "last reset: " ++ utf8 (reset_reason_name reason)))
    ∷ (if created
        then []
        else (stamped later ++ utf8 "WATCHDOG: supervisor task failed to start — no auto-recovery")
          ∷ [])

reset_reason_name-IsPiece : (r : ResetReason) → IsPiece 101 (utf8 (reset_reason_name r))
unfolding utf8 reset_reason_name
reset_reason_name-IsPiece power_on = literal 101 _ refl refl
reset_reason_name-IsPiece external = literal 101 _ refl refl
reset_reason_name-IsPiece software = literal 101 _ refl refl
reset_reason_name-IsPiece panic = literal 101 _ refl refl
reset_reason_name-IsPiece int_wdt = literal 101 _ refl refl
reset_reason_name-IsPiece task_wdt = literal 101 _ refl refl
reset_reason_name-IsPiece wdt = literal 101 _ refl refl
reset_reason_name-IsPiece deep_sleep = literal 101 _ refl refl
reset_reason_name-IsPiece brownout = literal 101 _ refl refl
reset_reason_name-IsPiece sdio = literal 101 _ refl refl
reset_reason_name-IsPiece usb = literal 101 _ refl refl
reset_reason_name-IsPiece jtag = literal 101 _ refl refl
reset_reason_name-IsPiece efuse = literal 101 _ refl refl
reset_reason_name-IsPiece pwr_glitch = literal 101 _ refl refl
reset_reason_name-IsPiece cpu_lockup = literal 101 _ refl refl
reset_reason_name-IsPiece other = literal 101 _ refl refl

-- Every line of the supervisor fits a row of the log and has no control byte.
reboot_line-IsPiece : (now : ℕ) (cause : Cause) → IsPiece 126 (reboot_line now cause)
unfolding reboot_line cause_text utf8
reboot_line-IsPiece now loop_stall =
    append-IsPiece 13 113 _ _ (stamped-IsPiece now) (literal 113 _ refl refl)
reboot_line-IsPiece now uplink_stall =
    append-IsPiece 13 113 _ _ (stamped-IsPiece now) (literal 113 _ refl refl)

begin_lines-IsPiece :
    (reason : ResetReason) (created : Bool) (now later : ℕ)
    → All (IsPiece 126) (begin_lines reason created now later)
unfolding begin_lines utf8
begin_lines-IsPiece reason true now later = (
  append-IsPiece 13 113 _ _ (stamped-IsPiece now) (
      append-IsPiece 12 101 _ _ (literal 12 (codes "last reset: ") refl refl)
        (reset_reason_name-IsPiece reason)),
  tt,
)
begin_lines-IsPiece reason false now later = (
  append-IsPiece 13 113 _ _ (stamped-IsPiece now) (
      append-IsPiece 12 101 _ _ (literal 12 (codes "last reset: ") refl refl)
        (reset_reason_name-IsPiece reason)),
  (append-IsPiece 13 113 _ _ (stamped-IsPiece later) (literal 113 _ refl refl), tt),
)
