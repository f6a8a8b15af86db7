-- ===== src/StatusLed/Colours.antt =====
-- The colours of the status LED: their range, and when two states can be told apart.
use spool_gate.Base.{ℕ, ◌*◌, ◌<◌, ◌≤◌, ◌≡◌, ◌↔◌, ap, arith, IsByte}
use spool_gate.StatusLed.{State, Rgb, off, red, amber, colour, channel, scale, pack}

pub record IsRgb (c : Rgb) : Type 0 where
  pub r_byte : IsByte c.r
  pub g_byte : IsByte c.g
  pub b_byte : IsByte c.b

pub scale-IsRgb : (brightness : ℕ) (c : Rgb) → IsRgb (scale brightness c)
unfolding scale
scale-IsRgb brightness c = omega arith

-- Different colours are packed to different words.
pub pack_injective : (c d : Rgb) → IsRgb c → IsRgb d → pack c ≡ pack d → c ≡ d
unfolding pack
pack_injective c d hc hd e = ground arith

channel_le : (brightness c : ℕ) → IsByte brightness → IsByte c → channel brightness c ≤ c
unfolding channel
channel_le brightness c hb hc = let h : c * brightness ≤ c * 255 = grind arith in omega arith

channel-full : (c : ℕ) → IsByte c → channel 255 c ≡ c
unfolding channel
channel-full c h = omega arith

channel-zero : (c : ℕ) → channel 0 c ≡ 0
unfolding channel
channel-zero c = omega arith

-- Scaling never brightens a channel, turns the LED off at 0, and leaves full brightness as it is.
pub scale_bounds :
    (brightness : ℕ) (c : Rgb)
    → IsByte brightness
    → IsRgb c
    → ((scale brightness c).r ≤ c.r)
      × ((scale brightness c).g ≤ c.g)
      × ((scale brightness c).b ≤ c.b)
      × (scale 0 c ≡ off)
      × (scale 255 c ≡ c)
unfolding scale
scale_bounds brightness c hb hc = (
  channel_le brightness c.r hb hc.r_byte,
  channel_le brightness c.g hb hc.g_byte,
  channel_le brightness c.b hb hc.b_byte,
  cc (channel-zero c.r, channel-zero c.g, channel-zero c.b),
  cc (channel-full c.r hc.r_byte, channel-full c.g hc.g_byte, channel-full c.b hc.b_byte),
)

-- Below it red and amber are one colour, since amber loses its green.
pub red-amber : (brightness : ℕ) → brightness < 3 → scale brightness red ≡ scale brightness amber
unfolding scale channel
red-amber brightness h = ground arith

-- From brightness 3 on the five states have five colours.
pub states_distinct :
    (brightness : ℕ) (s t : State)
    → IsByte brightness
    → 3 ≤ brightness
    → (scale brightness (colour s) ≡ scale brightness (colour t)) ↔ (s ≡ t)
unfolding scale colour channel
states_distinct brightness s t hb h =
    (λ e. ground arith, λ e. ap (λ u. scale brightness (colour u)) e)
