-- ===== src/StatusLed.antt =====
-- src/statusled.h and src/statusled.cpp: the status LED. A function that may write to the hardware
-- returns the new state and the colour of the one `rgbLedWrite` call that it makes, if it makes one.
pub mod Colours
pub mod Cache
use spool_gate.Base.{
  ℕ, ◌+◌, ◌*◌, ◌/◌, ◌%◌, Bool, true, false, not, ◌||◌, Option, none, some, ◌==◌, if◌then◌else◌,
}

pub data State : Type 0 where
  boot upstream_down no_clients connected fault : State

abbrev pub flash_half_period_ms : ℕ
flash_half_period_ms = 400

pub record Rgb : Type 0 where
  pub r : ℕ
  pub g : ℕ
  pub b : ℕ

abbrev pub off : Rgb
off = record { r = 0; g = 0; b = 0 }

abbrev pub white : Rgb
white = record { r = 255; g = 255; b = 255 }

abbrev pub red : Rgb
red = record { r = 255; g = 0; b = 0 }

abbrev pub amber : Rgb
amber = record { r = 255; g = 90; b = 0 }

abbrev pub blue : Rgb
blue = record { r = 0; g = 0; b = 255 }

abbrev pub magenta : Rgb
magenta = record { r = 255; g = 0; b = 255 }

pub record Led : Type 0 where
  pub brightness : ℕ  -- uint8_t
  pub last_written : Option ℕ  -- the packed colour; `none` is the code's -1

pub initial : Led
initial = record { brightness = 64; last_written = none }

-- One channel: `static_cast<uint8_t>(c * g_brightness / 255)`.
pub channel : ℕ → ℕ → ℕ
channel brightness c = c * brightness / 255 % 256

unfoldable pub scale : ℕ → Rgb → Rgb
unfolding channel
scale brightness c = record {
  r = channel brightness c.r;
  g = channel brightness c.g;
  b = channel brightness c.b;
}

-- `(r << 16) | (g << 8) | b`: the channels are bytes, so the three parts share no bit.
unfoldable pub pack : Rgb → ℕ
pack c = c.r * 65536 + c.g * 256 + c.b

is_cached : ℕ → Option ℕ → Bool
is_cached packed none = false
is_cached packed (some p) = packed == p

unfoldable pub write : Rgb → Led → Led × Option Rgb
unfolding is_cached
write c led =
    let scaled = scale led.brightness c in
    let packed = pack scaled in
    if is_cached packed led.last_written
    then (led, none)
    else (record led { last_written = some packed }, some scaled)

unfoldable pub set_brightness : ℕ → Led → Led
set_brightness brightness led = record led { brightness = brightness; last_written = none }

unfoldable pub begin : Led → Led × Option Rgb
begin led = write white (record led { last_written = none })

-- The `switch` of `update`: the colour of a state, and whether it flashes.
unfoldable pub colour : State → Rgb
colour upstream_down = red
colour no_clients = amber
colour connected = blue
colour fault = magenta
colour boot = white

unfoldable pub flashing : State → Bool
flashing upstream_down = true
flashing no_clients = true
flashing connected = true
flashing fault = false
flashing boot = false

unfoldable pub phase_on : State → ℕ → Bool
unfolding flashing
phase_on s now = not (flashing s) || now / flash_half_period_ms % 2 == 0

unfoldable pub update : State → ℕ → Led → Led × Option Rgb
unfolding phase_on colour
update s now led = write (if phase_on s now then colour s else off) led
