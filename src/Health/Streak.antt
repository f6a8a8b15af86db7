-- ===== src/Health/Streak.antt =====
-- The failure streak and `ever_ok` of a direction, against what has happened to it since boot.
use spool_gate.Base.{
  ℕ, ◌+◌, ◌≡◌, ◌∙◌, ap, sym, refl, Bool, false, List, [], ◌∷◌, ◌++◌, arith, ltb, min, ◌||◌, ◌&&◌,
  if◌then◌else◌,
}
use spool_gate.Health.{
  Health, Probe, Tick, Action, ticks, resets, up_replies, up_ends, down_replies, down_ends, harvest,
  continue, start_round, start_if_set, start_probe, open_probe, Outcome, update, step, run,
  reset_streaks, on_ping_success, on_ping_end, begin, initial,
}
use spool_gate.Base.{Address}

-- A round that ended with so many replies, or the failures on record forgotten.
pub data Happening : Type 0 where
  round : ℕ → Happening
  forgotten : Happening

-- The silent rounds at the end, with `k` such rounds before.
unfoldable pub silent : ℕ → List Happening → ℕ
silent k [] = k
silent k (round n ∷ hs) = silent (if ltb 0 n then 0 else k + 1) hs
silent k (forgotten ∷ hs) = silent 0 hs

unfoldable pub answered : List Happening → Bool
answered [] = false
answered (round n ∷ hs) = ltb 0 n || answered hs
answered (forgotten ∷ hs) = answered hs

-- A session that has ended is a round when `update` next looks at it.
unfoldable pub ended : Probe → List Happening
ended p = if p.running && p.finished then round p.replies ∷ [] else []

-- What an action is for the upstream direction: a call of `update` without an uplink forgets its
-- failures, as a recovery does.
unfoldable pub upstream_seen : Action → Health → List Happening
upstream_seen (ticks t) h = ended h.up ++ (if t.uplink_ready then [] else forgotten ∷ [])
upstream_seen resets h = forgotten ∷ []
upstream_seen _ h = []

unfoldable pub downstream_seen : Action → Health → List Happening
downstream_seen (ticks t) h = ended h.down
downstream_seen resets h = forgotten ∷ []
downstream_seen _ h = []

unfoldable pub history : (Action → Health → List Happening) → List Action → Health → List Happening
history seen [] h = []
history seen (a ∷ rest) h = seen a h ++ history seen rest (step a h).0

silent-append : (k : ℕ) (xs ys : List Happening) → silent k (xs ++ ys) ≡ silent (silent k xs) ys
unfolding silent
silent-append k [] ys = refl
silent-append k (round n ∷ xs) ys = silent-append (if ltb 0 n then 0 else k + 1) xs ys
silent-append k (forgotten ∷ xs) ys = silent-append 0 xs ys

answered-append : (xs ys : List Happening) → answered (xs ++ ys) ≡ (answered xs || answered ys)
unfolding answered
answered-append [] ys = refl
answered-append (round n ∷ xs) ys = ground (arith, answered-append xs ys)
answered-append (forgotten ∷ xs) ys = answered-append xs ys

-- The record of a direction is what has happened to it, behind `k` silent rounds and an answer or none.
pub record Tells (k : ℕ) (b : Bool) (p : Probe) : Type 0 where
  pub streak : p.fail_streak ≡ min k 255
  pub ever : p.ever_ok ≡ b

harvest-Tells :
    (k : ℕ) (b : Bool) (p : Probe)
    → Tells k b p
    → Tells (silent k (ended p)) (b || answered (ended p)) (harvest p).0
unfolding harvest ended silent answered
harvest-Tells k b p w = ground arith

start_if_set-Tells :
    (o : Outcome) (a : Address) (k : ℕ) (b : Bool) (p : Probe)
    → Tells k b p
    → Tells k b (start_if_set o a p).0
unfolding start_if_set start_probe open_probe
start_if_set-Tells o a k b p w = ground arith

start_round-Tells :
    (t : Tick) (h : Health) (k l : ℕ) (b c : Bool)
    → Tells k b h.up
    → Tells l c h.down
    → Tells k b (start_round t h).0.up × Tells l c (start_round t h).0.down
unfolding start_round
start_round-Tells t h k l b c u d = (
  start_if_set-Tells t.up_outcome t.gateway k b h.up u,
  start_if_set-Tells t.down_outcome t.client l c h.down d,
)

continue-Tells :
    (t : Tick) (h : Health) (k l : ℕ) (b c : Bool)
    → Tells k b h.up
    → Tells l c h.down
    → Tells
        (silent k (if t.uplink_ready then [] else forgotten ∷ []))
        (b || answered (if t.uplink_ready then [] else forgotten ∷ []))
        (continue t h).0.up
      × Tells l c (continue t h).0.down
unfolding continue silent answered
continue-Tells t h k l b c u d = ground (arith, start_round-Tells t h k l b c u d)

-- Two parts of a history one behind the other.
Tells-append :
    (k : ℕ) (b : Bool) (xs ys : List Happening) (p : Probe)
    → Tells (silent (silent k xs) ys) ((b || answered xs) || answered ys) p
    → Tells (silent k (xs ++ ys)) (b || answered (xs ++ ys)) p
Tells-append k b xs ys p w = record {
  streak = w.streak ∙ ap (λ n. min n 255) (sym (silent-append k xs ys));
  ever = w.ever ∙ ground (arith, answered-append xs ys);
}

-- Both directions after an action, or after many.
abbrev pub BothTell : ℕ → Bool → ℕ → Bool → Health → Type 0
BothTell k b l c h = Tells k b h.up × Tells l c h.down

step-Tells :
    (a : Action) (h : Health) (k l : ℕ) (b c : Bool)
    → BothTell k b l c h
    → BothTell
        (silent k (upstream_seen a h))
        (b || answered (upstream_seen a h))
        (silent l (downstream_seen a h))
        (c || answered (downstream_seen a h))
        (step a h).0
unfolding step update upstream_seen downstream_seen reset_streaks on_ping_success on_ping_end
step-Tells (ticks t) h k l b c w =
    let up = harvest-Tells k b h.up w.0 in
    let down = harvest-Tells l c h.down w.1 in
    let (u, d) =
      continue-Tells t (record h { up = (harvest h.up).0; down = (harvest h.down).0 }) _ _ _ _ up
        down in
    (Tells-append k b (ended h.up) (if t.uplink_ready then [] else forgotten ∷ []) _ u, d)
step-Tells resets h k l b c w = unfold silent answered in ground arith
step-Tells up_replies h k l b c w = unfold silent answered in ground arith
step-Tells up_ends h k l b c w = unfold silent answered in ground arith
step-Tells down_replies h k l b c w = unfold silent answered in ground arith
step-Tells down_ends h k l b c w = unfold silent answered in ground arith

run-Tells :
    (actions : List Action) (h : Health) (k l : ℕ) (b c : Bool)
    → BothTell k b l c h
    → BothTell
        (silent k (history upstream_seen actions h))
        (b || answered (history upstream_seen actions h))
        (silent l (history downstream_seen actions h))
        (c || answered (history downstream_seen actions h))
        (run actions h).0
unfolding run history
run-Tells [] h k l b c w = unfold silent answered in ground arith
run-Tells (a ∷ rest) h k l b c w =
    let (u, d) = run-Tells rest (step a h).0 _ _ _ _ (step-Tells a h k l b c w) in
    (
      Tells-append k b (upstream_seen a h) (history upstream_seen rest (step a h).0) _ u,
      Tells-append l c (downstream_seen a h) (history downstream_seen rest (step a h).0) _ d,
    )

-- From boot on, the streak of a direction is the number of silent rounds since the last one that was
-- answered or since its failures were last forgotten, counted up to 255, and `ever_ok` says whether
-- any round was ever answered.
pub run-Tells_begin :
    (actions : List Action)
    → let h = begin initial in
      BothTell
        (silent 0 (history upstream_seen actions h))
        (answered (history upstream_seen actions h))
        (silent 0 (history downstream_seen actions h))
        (answered (history downstream_seen actions h))
        (run actions h).0
run-Tells_begin actions = run-Tells actions (begin initial) 0 0 false false (
    unfold begin initial in
    (record { streak = refl; ever = refl }, record { streak = refl; ever = refl }))
