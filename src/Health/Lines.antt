-- ===== src/Health/Lines.antt =====
-- What src/net/health.cpp logs, as text. The newline at the end is left out.
use spool_gate.Base.{
  All-append, ℕ, refl, Bool, true, false, List, [], ◌∷◌, ◌++◌, String, Text, codes, decimal,
  stamped, All, if◌then◌else◌, ltb, ◌==◌, not, ◌||◌, Address, is_unset,
}
use spool_gate.Health.{
  Health, Probe, Effect, open_session, start_session, stop_session, delete_session, log_recovered,
  log_unreachable, Outcome, no_session, not_started, started, Tick, judge, harvest, start_probe,
  open_probe, start_if_set, start_round, continue, round_due, update, Action, ticks, resets,
  up_replies, up_ends, down_replies, down_ends, step, run, begin, on_ping_success, on_ping_end,
  reset_streaks,
}
use spool_gate.Logbuf.Pieces.{IsPiece, append-IsPiece, literal, decimal-IsPiece, stamped-IsPiece}

-- The line of an effect, if it is one, with the reading of the clock that stamps it.
unfoldable pub lines_of : ℕ → Effect → List Text
lines_of now (log_recovered name) =
    (stamped now ++ (codes "health: " ++ (codes name ++ codes " recovered"))) ∷ []
lines_of now (log_unreachable name streak) =
    (stamped now
      ++ (codes "health: "
          ++ (codes name ++ (codes " unreachable (" ++ (decimal streak ++ codes " in a row)")))))
    ∷ []
lines_of now _ = []

-- A name that is one of a direction.
abbrev IsName : String → Type 0
IsName name = IsPiece 17 (codes name)

abbrev HasName : Effect → Type 0
HasName (log_recovered name) = IsName name
HasName (log_unreachable name streak) = IsName name
HasName _ = Unit

-- The line of an effect fits a row of the log, whenever it is logged.
lines_of-IsPiece : (now : ℕ) (e : Effect) → HasName e → All (IsPiece 77) (lines_of now e)
unfolding lines_of
lines_of-IsPiece now (log_recovered name) n = (
  append-IsPiece 13 64 _ _ (stamped-IsPiece now) (
      append-IsPiece 8 56 _ _ (literal 8 (codes "health: ") refl refl)
        (append-IsPiece 17 39 _ _ n (literal 39 (codes " recovered") refl refl))),
  tt,
)
lines_of-IsPiece now (log_unreachable name streak) n = (
  append-IsPiece 13 64 _ _ (stamped-IsPiece now) (
      append-IsPiece 8 56 _ _ (literal 8 (codes "health: ") refl refl) (
        append-IsPiece 17 39 _ _ n (
          append-IsPiece 14 25 _ _ (literal 14 (codes " unreachable (") refl refl) (
            append-IsPiece 10 15 _ _ (decimal-IsPiece streak)
              (literal 15 (codes " in a row)") refl refl))))),
  tt,
)
lines_of-IsPiece now (open_session n target) k = tt
lines_of-IsPiece now (start_session h) k = tt
lines_of-IsPiece now (stop_session h) k = tt
lines_of-IsPiece now (delete_session h) k = tt

-- What a function leaves of a probe, and what it logs, are of a direction.
abbrev Good : Probe × List Effect → Type 0
Good x = IsName (x.0.name) × All HasName (x.1)

Good-if : (b : Bool) (x y : Probe × List Effect) → Good x → Good y → Good (if b then x else y)
Good-if true x y g h = g
Good-if false x y g h = h

All-if :
    (b : Bool) (x y : List Effect)
    → All HasName x
    → All HasName y
    → All HasName (if b then x else y)
All-if true x y g h = g
All-if false x y g h = h

judge-Good : (p : Probe) → IsName p.name → Good (judge p)
unfolding judge
judge-Good p n =
    Good-if (ltb 0 p.replies) _ _ (n, All-if (p.fail_streak == 0) [] _ tt (n, tt)) (n, (n, tt))

harvest-Good : (p : Probe) → IsName p.name → Good (harvest p)
unfolding harvest
harvest-Good p n =
    let g = judge-Good p n in
    Good-if (not p.running || not p.finished) _ _ (n, tt)
      (g.0, All-append HasName (judge p).1 _ g.1 (tt, (tt, tt)))

open_probe-Good :
    (o : Outcome) (target : Address) (p : Probe) → IsName p.name → Good (open_probe o target p)
unfolding open_probe
open_probe-Good no_session target p n = (n, tt)
open_probe-Good (not_started h) target p n = (n, (tt, (tt, (tt, tt))))
open_probe-Good (started h) target p n = (n, (tt, (tt, tt)))

start_if_set-Good :
    (o : Outcome) (target : Address) (p : Probe) → IsName p.name → Good (start_if_set o target p)
unfolding start_if_set start_probe
start_if_set-Good o target p n =
    Good-if (is_unset target) _ _ (n, tt)
      (Good-if p.running _ _ (n, tt)
        (open_probe-Good o target (record p { replies = 0; finished = false }) n))

-- The same of both directions.
abbrev BothGood : Health × List Effect → Type 0
BothGood x = (IsName (x.0.up.name) × IsName (x.0.down.name)) × All HasName (x.1)

BothGood-if :
    (b : Bool) (x y : Health × List Effect)
    → BothGood x
    → BothGood y
    → BothGood (if b then x else y)
BothGood-if true x y g h = g
BothGood-if false x y g h = h

continue-BothGood :
    (t : Tick) (h : Health) → IsName h.up.name → IsName h.down.name → BothGood (continue t h)
unfolding continue start_round
continue-BothGood t h u d =
    let up = start_if_set-Good t.up_outcome t.gateway h.up u in
    let down = start_if_set-Good t.down_outcome t.client h.down d in
    BothGood-if (not t.uplink_ready) _ _ ((u, d), tt)
      (BothGood-if (round_due t h) _ _ ((up.0, down.0), All-append HasName _ _ up.1 down.1)
        ((u, d), tt))

step-BothGood :
    (a : Action) (h : Health) → IsName h.up.name → IsName h.down.name → BothGood (step a h)
unfolding step update reset_streaks on_ping_success on_ping_end
step-BothGood (ticks t) h u d =
    let up = harvest-Good h.up u in
    let down = harvest-Good h.down d in
    let rest =
      continue-BothGood t (record h { up = (harvest h.up).0; down = (harvest h.down).0 }) up.0
        down.0 in
    (rest.0, All-append HasName _ _ up.1 (All-append HasName _ _ down.1 rest.1))
step-BothGood resets h u d = ((u, d), tt)
step-BothGood up_replies h u d = ((u, d), tt)
step-BothGood up_ends h u d = ((u, d), tt)
step-BothGood down_replies h u d = ((u, d), tt)
step-BothGood down_ends h u d = ((u, d), tt)

run-BothGood :
    (actions : List Action) (h : Health)
    → IsName h.up.name
    → IsName h.down.name
    → BothGood (run actions h)
unfolding run
run-BothGood [] h u d = ((u, d), tt)
run-BothGood (a ∷ rest) h u d =
    let first = step-BothGood a h u d in
    let later = run-BothGood rest (step a h).0 first.0.0 first.0.1 in
    (later.0, All-append HasName _ _ first.1 later.1)

abbrev Fits : ℕ → List Effect → Type 0
Fits now = All (λ e. All (IsPiece 77) (lines_of now e))

HasName-Fits : (now : ℕ) (es : List Effect) → All HasName es → Fits now es
HasName-Fits now [] n = tt
HasName-Fits now (e ∷ es) n = (lines_of-IsPiece now e (n.0), HasName-Fits now es (n.1))

-- Whatever happens behind `begin`, the probes log no line but of one of the two directions, and each line
-- has at most 77 bytes, whenever it is logged, so that it fits a row of the log.
run-Fits : (actions : List Action) (h : Health) (now : ℕ) → Fits now (run actions (begin h)).1
unfolding begin
run-Fits actions h now =
    HasName-Fits now (run actions (begin h)).1
      (run-BothGood actions (begin h) (literal 17 _ refl refl) (literal 17 _ refl refl)).1
