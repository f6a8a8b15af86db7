-- ===== src/Watchdog/Stall.antt =====
-- The supervisor against true time. The clock of the board is true time modulo 2^32 milliseconds;
-- the specification keeps true times, and no sentinel.
use spool_gate.Base.{
  ℕ, ◌+◌, ◌-◌, ◌%◌, ◌<◌, ◌≤◌, ◌≡◌, ◌≢◌, refl, ◌∙◌, Bool, true, false, Option, none, some, List, [],
  ◌∷◌, arith, leb, ltb, ◌||◌, ◌==◌, if◌then◌else◌, u32_mod, All,
}
use spool_gate.Watchdog.{
  Watchdog, Beat, ResetReason, Verdict, wait, reboot, loop_stall, uplink_stall, initial, begin,
  update, beats, poll, check, stamp, loop_stall_ms, uplink_stall_ms,
}

-- `millis()` at a true time
abbrev pub millis : ℕ → ℕ
millis t = t % u32_mod

-- What the words mean: when loop() last ran, and since when the uplink has been down.
pub record Truth : Type 0 where
  pub last : ℕ
  pub down : Option ℕ

-- A call of `update` at true times.
pub record Call : Type 0 where
  pub ready : Bool
  pub at : ℕ
  pub mark_at : ℕ

abbrev pub beat_of : Call → Beat
beat_of c = record { ready = c.ready; now = millis c.at; mark_now = millis c.mark_at }

abbrev pub or_else : Option ℕ → ℕ → ℕ
or_else none t = t
or_else (some s) t = s

unfoldable pub observe : Call → Truth → Truth
observe c g = record {
  last = c.at;
  down = if c.ready then none else some (or_else g.down c.mark_at);
}

unfoldable pub observe_all : List Call → Truth → Truth
observe_all [] g = g
observe_all (c ∷ cs) g = observe_all cs (observe c g)

pub beats_of : List Call → List Beat
beats_of [] = []
beats_of (c ∷ cs) = beat_of c ∷ beats_of cs

unfoldable pub stamp_of : Option ℕ → ℕ
stamp_of none = 0
stamp_of (some t) = stamp (millis t)

pub record Shows (w : Watchdog) (g : Truth) : Type 0 where
  pub last_shown : w.last_loop_ms ≡ millis g.last
  pub down_shown : w.uplink_down_since_ms ≡ stamp_of g.down

update-Shows :
    (c : Call) (w : Watchdog) (g : Truth)
    → Shows w g
    → Shows (update c.ready (millis c.at) (millis c.mark_at) w) (observe c g)
unfolding update observe stamp_of stamp
update-Shows c w g s = ground arith

pub beats-Shows :
    (cs : List Call) (w : Watchdog) (g : Truth)
    → Shows w g
    → Shows (beats (beats_of cs) w) (observe_all cs g)
unfolding beats beats_of observe_all
beats-Shows [] w g s = s
beats-Shows (c ∷ cs) w g s =
    beats-Shows cs (update c.ready (millis c.at) (millis c.mark_at) w) (observe c g)
      (update-Shows c w g s)

-- The millisecond that the nudge of the stamp costs.
unfoldable pub slack : ℕ → ℕ
slack t = if millis t == 0 then 1 else 0

-- The verdict in true time. The stamp of an uplink that went down at a reading of 0 is a millisecond ahead
-- of the clock: a round in that millisecond takes the wait for one of almost 2^32.
pub down_verdict : ℕ → Option ℕ → Verdict
down_verdict t none = wait
down_verdict t (some s) =
    if leb (uplink_stall_ms + slack s) (t - s) || ltb (t - s) (slack s)
    then reboot uplink_stall
    else wait

pub verdict : ℕ → Truth → Verdict
unfolding down_verdict
verdict t g = if leb loop_stall_ms (t - g.last) then reboot loop_stall else down_verdict t g.down

-- A time before `t` that is less than one round of the clock away.
abbrev pub Recent : ℕ → ℕ → Type 0
Recent t s = (s ≤ t) × (t - s < u32_mod)

abbrev pub DownRecent : ℕ → Option ℕ → Type 0
DownRecent t none = Unit {0}
DownRecent t (some s) = Recent t s

check-verdict :
    (t last : ℕ) (down : Option ℕ)
    → Recent t last
    → DownRecent t down
    → check true (millis t) (millis last) (stamp_of down)
      ≡ verdict t (record { last = last; down = down })
unfolding check verdict stamp_of slack stamp
check-verdict t last none l d = ground arith
check-verdict t last (some s) l d = ground arith

armed-beats : (bs : List Beat) (w : Watchdog) → (beats bs w).armed ≡ w.armed
unfolding beats update
armed-beats [] w = refl
armed-beats (b ∷ bs) w = armed-beats bs (update b.ready b.now b.mark_now w) ∙ ground arith

-- Across a wrap of the clock too, and after any calls of `update` from a record that shows the truth, an
-- armed supervisor reboots when loop() has not run for five minutes or the uplink has been down for five
-- minutes, counted in true time, and never else but in one case: an uplink that went down at a reading of
-- 0 counts from a millisecond later, and a round in that same millisecond reboots at once. The times that
-- are compared must be less than 49.7 days apart.
pub poll-verdict :
    (cs : List Call) (w : Watchdog) (g : Truth) (t : ℕ)
    → Shows w g
    → w.armed ≡ true
    → Recent t (observe_all cs g).last
    → DownRecent t (observe_all cs g).down
    → poll (millis t) (beats (beats_of cs) w) ≡ verdict t (observe_all cs g)
unfolding poll
poll-verdict cs w g t s on l d =
    rw (armed-beats (beats_of cs) w ∙ on, shown.last_shown, shown.down_shown)
      (check-verdict t (observe_all cs g).last (observe_all cs g).down l d)
  where
    shown : Shows (beats (beats_of cs) w) (observe_all cs g)
    shown = beats-Shows cs w g s

-- What `begin` leaves is true: both clocks run from its own readings.
pub begin-Shows :
    (reason : ResetReason) (created : Bool) (t₀ t₁ : ℕ)
    → Shows
        (begin reason created (millis t₀) (millis t₁) initial)
        (record { last = t₀; down = some t₁ })
unfolding begin initial stamp_of stamp
begin-Shows reason created t₀ t₁ = ground arith

armed-begin :
    (reason : ResetReason) (t₀ t₁ : ℕ)
    → (begin reason true (millis t₀) (millis t₁) initial).armed ≡ true
unfolding begin
armed-begin reason t₀ t₁ = refl

abbrev pub AllDown : List Call → Type 0
AllDown cs = All (λ c. c.ready ≡ false) cs

down-observe_all :
    (cs : List Call) (g : Truth) (s : ℕ)
    → AllDown cs
    → g.down ≡ some s
    → (observe_all cs g).down ≡ some s
unfolding observe_all observe
down-observe_all [] g s a e = e
down-observe_all (c ∷ cs) g s a e = down-observe_all cs (observe c g) s a.1 (ground arith)

verdict_down :
    (t : ℕ) (g : Truth) (s : ℕ)
    → g.down ≡ some s
    → uplink_stall_ms + slack s ≤ t - s
    → verdict t g ≢ wait
unfolding verdict
verdict_down t g s e h = ground arith

-- A board whose uplink never came up since `begin` is rebooted by any round of the supervisor from
-- five minutes and a millisecond after it on, whatever calls of `update` came in between.
pub never_up-reboots :
    (reason : ResetReason) (cs : List Call) (t₀ t₁ t : ℕ)
    → AllDown cs
    → Recent t (observe_all cs (record { last = t₀; down = some t₁ })).last
    → Recent t t₁
    → uplink_stall_ms + 1 ≤ t - t₁
    → poll (millis t) (beats (beats_of cs) (begin reason true (millis t₀) (millis t₁) initial))
      ≢ wait
unfolding slack
never_up-reboots reason cs t₀ t₁ t a l d h =
    rw
      (poll-verdict cs (begin reason true (millis t₀) (millis t₁) initial) g t
        (begin-Shows reason true t₀ t₁) (armed-begin reason t₀ t₁) l (rw down d))
      (verdict_down t (observe_all cs g) t₁ down (ground arith))
  where
    g : Truth
    g = record { last = t₀; down = some t₁ }

    down : (observe_all cs g).down ≡ some t₁
    down = down-observe_all cs g t₁ a refl
