-- ===== src/Health/Sessions.antt =====
-- What the code keeps of a ping session, and how many it opens and deletes. Ledger follows the single
-- session.
use spool_gate.Base.{
  All-append, ℕ, ◌+◌, ◌≤◌, ◌≡◌, refl, Bool, true, false, not, ◌&&◌, Option, none, some, List, [],
  ◌∷◌, ◌++◌, arith, if◌then◌else◌, All, Address,
}
use spool_gate.Health.{
  Health, Probe, Result, ok, Effect, open_session, start_session, stop_session, delete_session,
  log_recovered, log_unreachable, Outcome, Tick, Action, ticks, resets, up_replies, up_ends,
  down_replies, down_ends, initial, begin, harvest, start_if_set, start_round, continue, update,
  step, run, reset_streaks, on_ping_success, on_ping_end,
}

abbrev pub opens : List Effect → ℕ
opens [] = 0
opens (open_session h a ∷ es) = opens es + 1
opens (_ ∷ es) = opens es

abbrev pub deletes : List Effect → ℕ
deletes [] = 0
deletes (delete_session h ∷ es) = deletes es + 1
deletes (_ ∷ es) = deletes es

-- An effect names a session that there is.
abbrev pub IsNamed : Effect → Type 0
IsNamed (start_session none) = ⊥
IsNamed (stop_session none) = ⊥
IsNamed (delete_session none) = ⊥
IsNamed _ = Unit {0}

abbrev pub is_some : Option ℕ → Bool
is_some none = false
is_some (some h) = true

abbrev pub is_ok : Result → Bool
is_ok ok = true
is_ok _ = false

pub record IsSound (p : Probe) : Type 0 where
  pub held : p.running ≡ is_some p.handle
  pub streak_byte : p.fail_streak ≤ 255
  pub heard : (is_ok p.result && not p.ever_ok) ≡ false

abbrev pub live : Probe → ℕ
live p = if p.running then 1 else 0

pub opens-append : (xs ys : List Effect) → opens (xs ++ ys) ≡ opens xs + opens ys
opens-append [] ys = omega arith
opens-append (open_session h a ∷ xs) ys = omega (arith, opens-append xs ys)
opens-append (start_session h ∷ xs) ys = opens-append xs ys
opens-append (stop_session h ∷ xs) ys = opens-append xs ys
opens-append (delete_session h ∷ xs) ys = opens-append xs ys
opens-append (log_recovered n ∷ xs) ys = opens-append xs ys
opens-append (log_unreachable n k ∷ xs) ys = opens-append xs ys

pub deletes-append : (xs ys : List Effect) → deletes (xs ++ ys) ≡ deletes xs + deletes ys
deletes-append [] ys = omega arith
deletes-append (delete_session h ∷ xs) ys = omega (arith, deletes-append xs ys)
deletes-append (open_session h a ∷ xs) ys = deletes-append xs ys
deletes-append (start_session h ∷ xs) ys = deletes-append xs ys
deletes-append (stop_session h ∷ xs) ys = deletes-append xs ys
deletes-append (log_recovered n ∷ xs) ys = deletes-append xs ys
deletes-append (log_unreachable n k ∷ xs) ys = deletes-append xs ys

-- What one part of the code does to a probe, with the effects that it had.
pub record Kept (p q : Probe) (es : List Effect) : Type 0 where
  pub sound : IsSound q
  pub balance : opens es + live p ≡ deletes es + live q
  pub named : All IsNamed es

pub harvest-Kept : (p : Probe) → IsSound p → Kept p (harvest p).0 (harvest p).1
unfolding harvest
harvest-Kept p s = ground arith

start_probe-Kept :
    (o : Outcome) (a : Address) (p : Probe)
    → IsSound p
    → Kept p (start_if_set o a p).0 (start_if_set o a p).1
unfolding start_if_set
start_probe-Kept o a p s = ground arith

pub record IsSafe (h : Health) : Type 0 where
  pub up_sound : IsSound h.up
  pub down_sound : IsSound h.down

abbrev pub live_sessions : Health → ℕ
live_sessions h = live h.up + live h.down

pub record Moves (h h' : Health) (es : List Effect) : Type 0 where
  pub safe : IsSafe h'
  pub balanced : opens es + live_sessions h ≡ deletes es + live_sessions h'
  pub all_named : All IsNamed es

Moves-append :
    (h h' h'' : Health) (xs ys : List Effect)
    → Moves h h' xs
    → Moves h' h'' ys
    → Moves h h'' (xs ++ ys)
Moves-append h h' h'' xs ys m n = record {
  safe = n.safe;
  balanced = omega (arith, opens-append xs ys, deletes-append xs ys);
  all_named = All-append IsNamed xs ys m.all_named n.all_named;
}

-- Both directions at once.
both-Moves :
    (h h' : Health) (xs ys : List Effect)
    → Kept h.up h'.up xs
    → Kept h.down h'.down ys
    → Moves h h' (xs ++ ys)
both-Moves h h' xs ys k l = record {
  safe = record { up_sound = k.sound; down_sound = l.sound };
  balanced = omega (arith, opens-append xs ys, deletes-append xs ys);
  all_named = All-append IsNamed xs ys k.named l.named;
}

start_round-Moves :
    (t : Tick) (h : Health) → IsSafe h → Moves h (start_round t h).0 (start_round t h).1
unfolding start_round
start_round-Moves t h s =
    both-Moves h (start_round t h).0 (start_if_set t.up_outcome t.gateway h.up).1
      (start_if_set t.down_outcome t.client h.down).1
      (start_probe-Kept t.up_outcome t.gateway h.up s.up_sound)
      (start_probe-Kept t.down_outcome t.client h.down s.down_sound)

one-Moves :
    (h h' : Health) (xs : List Effect)
    → Kept h.up h'.up xs
    → IsSound h.down
    → h'.down ≡ h.down
    → Moves h h' xs
one-Moves h h' xs k d e = ground arith

other-Moves :
    (h h' : Health) (xs : List Effect)
    → IsSound h.up
    → Kept h.down h'.down xs
    → h'.up ≡ h.up
    → Moves h h' xs
other-Moves h h' xs u k e = ground arith

continue-Moves : (t : Tick) (h : Health) → IsSafe h → Moves h (continue t h).0 (continue t h).1
unfolding continue
continue-Moves t h s = ground (arith, start_round-Moves t h s)

update-Moves : (t : Tick) (h : Health) → IsSafe h → Moves h (update t h).0 (update t h).1
unfolding update
update-Moves t h s =
    Moves-append h harvested (update t h).0 (harvest h.up).1 ((harvest h.down).1 ++ later.1)
      (one-Moves h harvested (harvest h.up).1 (harvest-Kept h.up s.up_sound) s.down_sound refl)
      (Moves-append harvested harvested' (update t h).0 (harvest h.down).1 later.1
        (other-Moves harvested harvested' (harvest h.down).1 up_sound
          (harvest-Kept h.down s.down_sound) refl)
        (continue-Moves t harvested'
          (record { up_sound = up_sound; down_sound = (harvest-Kept h.down s.down_sound).sound })))
  where
    harvested : Health
    harvested = record h { up = (harvest h.up).0 }

    harvested' : Health
    harvested' = record harvested { down = (harvest h.down).0 }

    later : Health × List Effect
    later = continue t harvested'

    up_sound : IsSound (harvest h.up).0
    up_sound = (harvest-Kept h.up s.up_sound).sound

pub step-Moves : (a : Action) (h : Health) → IsSafe h → Moves h (step a h).0 (step a h).1
unfolding step reset_streaks on_ping_success on_ping_end
step-Moves (ticks t) h s = update-Moves t h s
step-Moves resets h s = ground arith
step-Moves up_replies h s = ground arith
step-Moves up_ends h s = ground arith
step-Moves down_replies h s = ground arith
step-Moves down_ends h s = ground arith

pub run-Moves :
    (actions : List Action) (h : Health) → IsSafe h → Moves h (run actions h).0 (run actions h).1
unfolding run
run-Moves [] h s = record { safe = s; balanced = refl; all_named = tt }
run-Moves (a ∷ rest) h s =
    Moves-append h (step a h).0 (run (a ∷ rest) h).0 (step a h).1 (run rest (step a h).0).1
      (step-Moves a h s) (run-Moves rest (step a h).0 (step-Moves a h s).safe)

pub begun-IsSafe : IsSafe (begin initial)
unfolding begin initial
begun-IsSafe = ground arith
