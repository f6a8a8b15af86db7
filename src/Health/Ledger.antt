-- ===== src/Health/Ledger.antt =====
-- The ping sessions against a ledger of the open ones.
use spool_gate.Base.{
  ℕ, ◌+◌, ◌-◌, ◌≤◌, ◌≡◌, refl, ap, sym, ◌∙◌, Bool, true, false, not, ◌&&◌, ◌||◌, ◌==◌, Bool-cases,
  Option-cases, inl, inr, Option, none, some, List, [], ◌∷◌, ◌++◌, arith, if◌then◌else◌, All,
  Address, is_unset,
}
use spool_gate.Health.{
  Health, Probe, Effect, open_session, start_session, stop_session, delete_session, log_recovered,
  log_unreachable, Outcome, no_session, not_started, started, Tick, Action, ticks, resets,
  up_replies, up_ends, down_replies, down_ends, initial, begin, harvest, judge, open_probe,
  start_probe, start_if_set, start_round, continue, round_due, update, step, run, reset_streaks,
  on_ping_success, on_ping_end,
}
use spool_gate.Health.Sessions.{
  opens, deletes, IsNamed, IsSound, IsSafe, live_sessions, harvest-Kept, step-Moves, run-Moves,
  begun-IsSafe,
}

-- One entry of the ledger: how many sessions with the handle `n` are open. A call on a session that is not
-- open is refused, and so is one without a session.
abbrev pub entry : ℕ → Effect → ℕ → Option ℕ
entry n (open_session h target) k = some (if h == n then k + 1 else k)
entry n (start_session none) k = none
entry n (start_session (some h)) k = if h == n && k == 0 then none else some k
entry n (stop_session none) k = none
entry n (stop_session (some h)) k = if h == n && k == 0 then none else some k
entry n (delete_session none) k = none
entry n (delete_session (some h)) k =
    if h == n then (if k == 0 then none else some (k - 1)) else some k
entry n (log_recovered name) k = some k
entry n (log_unreachable name streak) k = some k

abbrev pub and_then : Option ℕ → (ℕ → Option ℕ) → Option ℕ
and_then none f = none
and_then (some k) f = f k

-- The entry after the effects, unless one of them is refused.
unfoldable pub ledger : ℕ → List Effect → ℕ → Option ℕ
ledger n [] k = some k
ledger n (e ∷ es) k = and_then (entry n e k) (ledger n es)

-- Whether a direction holds the session `n`.
abbrev pub holds : ℕ → Option ℕ → ℕ
holds n none = 0
holds n (some h) = if h == n then 1 else 0

and_then-ledger :
    (n : ℕ) (o : Option ℕ) (xs ys : List Effect)
    → ((k : ℕ) → ledger n (xs ++ ys) k ≡ and_then (ledger n xs k) (ledger n ys))
    → and_then o (ledger n (xs ++ ys)) ≡ and_then (and_then o (ledger n xs)) (ledger n ys)
and_then-ledger n none xs ys f = refl
and_then-ledger n (some k) xs ys f = f k

ledger-append :
    (n : ℕ) (xs ys : List Effect) (k : ℕ)
    → ledger n (xs ++ ys) k ≡ and_then (ledger n xs k) (ledger n ys)
unfolding ledger
ledger-append n [] ys k = refl
ledger-append n (e ∷ xs) ys k = and_then-ledger n (entry n e k) xs ys (λ j. ledger-append n xs ys j)

ledger-both :
    (n : ℕ) (xs ys : List Effect) (a b c : ℕ)
    → ledger n xs a ≡ some b
    → ledger n ys b ≡ some c
    → ledger n (xs ++ ys) a ≡ some c
ledger-both n xs ys a b c p q = ledger-append n xs ys a ∙ (ap (λ o. and_then o (ledger n ys)) p ∙ q)

judge-booked :
    (n m : ℕ) (p : Probe) → (ledger n (judge p).1 m ≡ some m) × ((judge p).0.handle ≡ p.handle)
unfolding judge ledger
judge-booked n m p = ground arith

end-booked :
    (n k h : ℕ)
    → ledger n (stop_session (some h) ∷ delete_session (some h) ∷ []) (k + holds n (some h))
      ≡ some (k + 0)
unfolding ledger
end-booked n k h = ground arith

held_handle : (p : Probe) → IsSound p → p.running ≡ true → (h : ℕ) × (p.handle ≡ some h)
held_handle p s r = elim (Option-cases p.handle) [
  | inl nothing ↦ absurd (ground (arith, s.held))
  | inr found ↦ found
]

harvest-booked :
    (n k : ℕ) (p : Probe)
    → IsSound p
    → ledger n (harvest p).1 (k + holds n p.handle) ≡ some (k + holds n (harvest p).0.handle)
unfolding harvest
harvest-booked n k p s = elim (Bool-cases (not p.running || not p.finished)) [
  | inl idle ↦ rw idle (unfold ledger in refl)
  | inr over ↦
      let (h, e) = held_handle p s (ground arith) in
      let judged = judge-booked n (k + holds n p.handle) p in
      rw (over, judged.1 ∙ e) (ledger-both n (judge p).1 _ _ _ _ judged.0 (rw e (end-booked n k h)))
]

idle_handle : (p : Probe) → IsSound p → p.running ≡ false → p.handle ≡ none
idle_handle p s r = elim (Option-cases p.handle) [
  | inl nothing ↦ nothing
  | inr (h, e) ↦ absurd (ground (arith, s.held))
]

open_probe-booked :
    (o : Outcome) (a : Address) (n k : ℕ) (p : Probe)
    → p.handle ≡ none
    → ledger n (open_probe o a p).1 (k + holds n p.handle)
      ≡ some (k + holds n (open_probe o a p).0.handle)
unfolding open_probe ledger
open_probe-booked no_session a n k p e = ground arith
open_probe-booked (not_started h) a n k p e = ground arith
open_probe-booked (started h) a n k p e = ground arith

start_if_set-booked :
    (o : Outcome) (a : Address) (n k : ℕ) (p : Probe)
    → IsSound p
    → ledger n (start_if_set o a p).1 (k + holds n p.handle)
      ≡ some (k + holds n (start_if_set o a p).0.handle)
unfolding start_if_set start_probe open_probe ledger
start_if_set-booked o a n k p s = elim (Bool-cases (is_unset a)) [
  | inl unset ↦ rw unset refl
  | inr given ↦ elim (Bool-cases p.running) [
    | inl on ↦ rw (given, on) refl
    | inr off ↦ rw (given, off) (open_probe-booked o a n k _ (idle_handle p s off))
  ]
]

-- How many directions hold the session `n`.
abbrev pub open_entry : ℕ → Health → ℕ
open_entry n h = holds n h.up.handle + holds n h.down.handle

-- A step of the state with its effects, in the ledger.
abbrev Booked : ℕ → Health → Health × List Effect → Type 0
Booked n h x = ledger n x.1 (open_entry n h) ≡ some (open_entry n x.0)

Booked-if :
    (n : ℕ) (h : Health) (b : Bool) (x y : Health × List Effect)
    → Booked n h x
    → Booked n h y
    → Booked n h (if b then x else y)
Booked-if n h true x y p q = p
Booked-if n h false x y p q = q

-- The direction that changes stands behind the other one in the sum.
commuted :
    (n a a' b : ℕ) (es : List Effect)
    → ledger n es (b + a) ≡ some (b + a')
    → ledger n es (a + b) ≡ some (a' + b)
commuted n a a' b es p = ap (ledger n es) (omega arith) ∙ (p ∙ ap some (omega arith))

start_round-Booked : (n : ℕ) (t : Tick) (h : Health) → IsSafe h → Booked n h (start_round t h)
unfolding start_round
start_round-Booked n t h s =
    let up = start_if_set t.up_outcome t.gateway h.up in
    let down = start_if_set t.down_outcome t.client h.down in
    ledger-both n up.1 down.1 _ (holds n (up.0.handle) + holds n h.down.handle) _
      (commuted n _ _ (holds n h.down.handle) up.1
        (start_if_set-booked t.up_outcome t.gateway n (holds n h.down.handle) h.up s.up_sound))
      (start_if_set-booked t.down_outcome t.client n (holds n (up.0.handle)) h.down s.down_sound)

continue-Booked : (n : ℕ) (t : Tick) (h : Health) → IsSafe h → Booked n h (continue t h)
unfolding continue
continue-Booked n t h s =
    Booked-if n h (not t.uplink_ready) _ _ (unfold ledger in refl)
      (Booked-if n h (round_due t h) _ _ (start_round-Booked n t h s) (unfold ledger in refl))

update-Booked : (n : ℕ) (t : Tick) (h : Health) → IsSafe h → Booked n h (update t h)
unfolding update
update-Booked n t h s =
    let up = harvest h.up in
    let down = harvest h.down in
    let h' = record h { up = up.0; down = down.0 } in
    let safe' : IsSafe h' = record {
      up_sound = (harvest-Kept h.up s.up_sound).sound;
      down_sound = (harvest-Kept h.down s.down_sound).sound;
    } in
    ledger-both n up.1 (down.1 ++ (continue t h').1) _
      (holds n (up.0.handle) + holds n h.down.handle) _
      (commuted n _ _ (holds n h.down.handle) up.1
        (harvest-booked n (holds n h.down.handle) h.up s.up_sound))
      (ledger-both n down.1 (continue t h').1 _ _ _
        (harvest-booked n (holds n (up.0.handle)) h.down s.down_sound)
        (continue-Booked n t h' safe'))

step-Booked : (n : ℕ) (a : Action) (h : Health) → IsSafe h → Booked n h (step a h)
unfolding step ledger reset_streaks on_ping_success on_ping_end
step-Booked n (ticks t) h s = update-Booked n t h s
step-Booked n resets h s = refl
step-Booked n up_replies h s = refl
step-Booked n up_ends h s = refl
step-Booked n down_replies h s = refl
step-Booked n down_ends h s = refl

run-Booked : (n : ℕ) (actions : List Action) (h : Health) → IsSafe h → Booked n h (run actions h)
unfolding run
run-Booked n [] h s = unfold ledger in refl
run-Booked n (a ∷ rest) h s =
    ledger-both n (step a h).1 (run rest (step a h).0).1 _ _ _ (step-Booked n a h s)
      (run-Booked n rest (step a h).0 (step-Moves a h s).safe)

begun_idle : live_sessions (begin initial) ≡ 0
unfolding begin initial
begun_idle = refl

begun_entry : (n : ℕ) → open_entry n (begin initial) ≡ 0
unfolding begin initial
begun_entry n = refl

-- From boot on, after any calls of loop() and any callbacks of the ping task in any order: each
-- direction holds a session exactly when it is running, so there are two at most; of every session no
-- call of the ping library was made but between its opening and its deletion, and it is open at the end
-- exactly as often as a direction holds it, so that all others have been deleted; no call was made
-- without a session; a streak stays in its byte; and a direction that reads `ok` has answered.
pub run-Sessions :
    (actions : List Action) (n : ℕ)
    → let (h, es) = run actions (begin initial) in
      IsSafe h
      × (ledger n es 0 ≡ some (open_entry n h))
      × (opens es ≡ deletes es + live_sessions h)
      × (live_sessions h ≤ 2)
      × All IsNamed es
run-Sessions actions n =
    let m = run-Moves actions (begin initial) begun-IsSafe in
    (
      m.safe,
      ap (ledger n (run actions (begin initial)).1) (sym (begun_entry n))
          ∙ run-Booked n actions (begin initial) begun-IsSafe,
      omega (arith, m.balanced, begun_idle),
      ground arith,
      m.all_named,
    )
