-- ===== src/StatusLed/Cache.antt =====
-- The write cache of the status LED: what is on the hardware after any calls.
use spool_gate.Base.{ℕ, ◌≡◌, ◌↔◌, refl, Option, none, some, List, [], ◌∷◌, arith, if◌then◌else◌}
use spool_gate.StatusLed.{
  State, Led, Rgb, off, white, colour, scale, pack, write, set_brightness, begin, update, phase_on,
}
use spool_gate.StatusLed.Colours.{IsRgb, scale-IsRgb, pack_injective}

-- The driver's state beside the colour that the hardware shows: the last one written to it.
pub record Device : Type 0 where
  pub led : Led
  pub shown : Option Rgb

abbrev pub latch : Option Rgb → Option Rgb → Option Rgb
latch shown none = shown
latch shown (some c) = some c

abbrev pub drive : Device → Led × Option Rgb → Device
drive dev r = record { led = r.0; shown = latch dev.shown r.1 }

pub data Call : Type 0 where
  brightens : ℕ → Call
  begins : Call
  updates : State → ℕ → Call

unfoldable pub step : Call → Device → Device
step (brightens n) dev = record dev { led = set_brightness n dev.led }
step begins dev = drive dev (begin dev.led)
step (updates s now) dev = drive dev (update s now dev.led)

unfoldable pub run : List Call → Device → Device
run [] dev = dev
run (c ∷ cs) dev = run cs (step c dev)

-- A cached word is that of the colour shown.
abbrev pub Agrees : Option ℕ → Option Rgb → Type 0
Agrees none shown = Unit {0}
Agrees (some p) none = ⊥
Agrees (some p) (some c) = IsRgb c × (p ≡ pack c)

abbrev pub IsCoherent : Device → Type 0
IsCoherent dev = Agrees dev.led.last_written dev.shown

write-shows_at :
    (c : Rgb) (led : Led) (l : Option ℕ) (shown : Option Rgb)
    → led.last_written ≡ l
    → Agrees l shown
    → latch shown (write c led).1 ≡ some (scale led.brightness c)
unfolding write
write-shows_at c led none shown e h = ground arith
write-shows_at c led (some p) none e h = absurd h
write-shows_at c led (some p) (some d) e h = ground (
  arith,
  scale-IsRgb led.brightness c,
  pack_injective (scale led.brightness c) d (scale-IsRgb led.brightness c) h.0,
)

-- After `write` the hardware shows the scaled colour, whether or not the call was made.
write-shows :
    (c : Rgb) (led : Led) (shown : Option Rgb)
    → Agrees led.last_written shown
    → latch shown (write c led).1 ≡ some (scale led.brightness c)
write-shows c led shown h = write-shows_at c led led.last_written shown refl h

write-IsCoherent :
    (c : Rgb) (led : Led) (shown : Option Rgb)
    → Agrees led.last_written shown
    → Agrees (write c led).0.last_written (latch shown (write c led).1)
unfolding write
write-IsCoherent c led shown h = ground (arith, scale-IsRgb led.brightness c)

step-IsCoherent : (c : Call) (dev : Device) → IsCoherent dev → IsCoherent (step c dev)
unfolding step set_brightness begin update
step-IsCoherent (brightens n) dev h = tt
step-IsCoherent begins dev h =
    write-IsCoherent white (record dev.led { last_written = none }) dev.shown tt
step-IsCoherent (updates s now) dev h =
    write-IsCoherent (if phase_on s now then colour s else off) dev.led dev.shown h

pub run-IsCoherent : (cs : List Call) (dev : Device) → IsCoherent dev → IsCoherent (run cs dev)
unfolding run
run-IsCoherent [] dev h = h
run-IsCoherent (c ∷ cs) dev h = run-IsCoherent cs (step c dev) (step-IsCoherent c dev h)

-- The colour that a state wants on the hardware at a time.
abbrev pub wanted : ℕ → State → ℕ → Rgb
wanted brightness s now = scale brightness (if phase_on s now then colour s else off)

-- After any calls from a state whose cached word, if there is one, is that of the colour shown, `update`
-- leaves the hardware showing the scaled colour of the state it was given, or dark in the off phase:
-- the cache never withholds a write that is needed.
pub update-shows :
    (cs : List Call) (dev : Device) (s : State) (now : ℕ)
    → IsCoherent dev
    → let dev' = run cs dev in
      (step (updates s now) dev').shown ≡ some (wanted dev'.led.brightness s now)
unfolding step update
update-shows cs dev s now h =
    write-shows (if phase_on s now then colour s else off) (run cs dev).led (run cs dev).shown
      (run-IsCoherent cs dev h)

write_quiet :
    (c : Rgb) (led : Led) (p : ℕ) (shown : Option Rgb)
    → led.last_written ≡ some p
    → Agrees (some p) shown
    → ((write c led).1 ≡ none) ↔ (shown ≡ some (scale led.brightness c))
unfolding write
write_quiet c led p none e h = absurd h
write_quiet c led p (some d) e h = (
  λ q. ground (arith, pack_injective (scale led.brightness c) d (scale-IsRgb led.brightness c) h.0),
  λ q. ground arith,
)

-- Nor does it make one that is not: while a word is cached, that is since the first write after the
-- last change of brightness, `update` writes exactly when the wanted colour is not the one shown.
pub update_quiet :
    (cs : List Call) (dev : Device) (s : State) (now p : ℕ)
    → IsCoherent dev
    → (run cs dev).led.last_written ≡ some p
    → ((update s now (run cs dev).led).1 ≡ none)
      ↔ ((run cs dev).shown ≡ some (wanted (run cs dev).led.brightness s now))
unfolding update
update_quiet cs dev s now p h e =
    write_quiet (if phase_on s now then colour s else off) (run cs dev).led p (run cs dev).shown e
      (rw e at (run-IsCoherent cs dev h))
