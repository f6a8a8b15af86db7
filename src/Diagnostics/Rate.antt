-- ===== src/Diagnostics/Rate.antt =====
-- How often the diagnostics of src/main.cpp run: the timers over many iterations.
use spool_gate.Base.{
  ℕ, ◌+◌, ◌<◌, ◌≤◌, ◌≡◌, inl, inr, refl, ap, sym, ◌∙◌, Bool, true, List, [], ◌∷◌, if◌then◌else◌,
  arith, u32_mod, Bool-cases, ◌||◌, ◌==◌,
}
use spool_gate.Config.{AddressText}
use spool_gate.Router.{Router}
use spool_gate.Diagnostics.{
  Report, Reading, Timers, scan_fires, test_fires, ap_fires, status_fires, due, due_or_first,
  diagnose, stamp_if, scan_every_ms, ap_log_every_ms, status_log_every_ms,
}
use spool_gate.Diagnostics.Runs.{
  runs, is_scan, is_test, is_snapshot, is_station, runs-scan, runs-test, runs-snapshot,
  runs-station,
}

-- The clock goes forward from `from` on, and does not wrap: at one timer, over the iterations.
abbrev pub Follows : (Report → Reading) → ℕ → List (Report × Router) → Type 0
Follows timer from [] = Unit
Follows timer from ((d, r) ∷ rest) =
    (from ≤ (timer d).now)
    × ((timer d).now ≤ (timer d).mark)
    × ((timer d).mark < u32_mod)
    × Follows timer ((timer d).mark) rest

-- More than `every` lies between two neighbours, the first of which comes behind `last`.
abbrev pub Spaced : ℕ → ℕ → List ℕ → Type 0
Spaced every last [] = Unit
Spaced every last (m ∷ ms) = (last + every < m) × Spaced every m ms

abbrev pub SpacedApart : ℕ → List ℕ → Type 0
SpacedApart every [] = Unit
SpacedApart every (m ∷ ms) = Spaced every m ms

-- The stamps that a timer takes in a run of iterations, each with the state of the router at that time.
unfoldable pub stamps :
    AddressText
    → (Report → Router → Timers → Bool)
    → (Report → Reading)
    → List (Report × Router)
    → Timers
    → List ℕ
stamps ips fires timer [] t = []
stamps ips fires timer ((d, r) ∷ rest) t =
    let later = stamps ips fires timer rest (diagnose ips d r t).0 in
    if fires d r t then (timer d).mark ∷ later else later

-- A timer of the four: which iterations it fires in, where it reads the clock, and its static.
record IsTimer (ips : AddressText) (every : ℕ) (fires : Report → Router → Timers → Bool)
    (timer : Report → Reading) (last : Timers → ℕ) : Type 0 where
  fires_late :
      (d : Report) (r : Router) (t : Timers)
      → fires d r t ≡ true
      → ((last t == 0) || due every (last t) ((timer d).now)) ≡ true
  keeps :
      (d : Report) (r : Router) (t : Timers)
      → last (diagnose ips d r t).0 ≡ stamp_if (fires d r t) ((timer d).mark) (last t)

module _ (ips : AddressText) (every : ℕ) (fires : Report → Router → Timers → Bool)
    (timer : Report → Reading) (last : Timers → ℕ) (k : IsTimer ips every fires timer last) where
  later_than :
      (d : Report) (r : Router) (t : Timers) (from : ℕ)
      → 0 < last t
      → last t ≤ from
      → from ≤ (timer d).now
      → (timer d).now < u32_mod
      → fires d r t ≡ true
      → last t + every < (timer d).now
  unfolding due
  later_than d r t from pos l m u f = ground (arith, k.fires_late d r t f)

  stamps-Spaced :
      (ds : List (Report × Router)) (t : Timers) (from : ℕ)
      → 0 < last t
      → last t ≤ from
      → Follows timer from ds
      → Spaced every (last t) (stamps ips fires timer ds t)
  unfolding stamps
  stamps-Spaced [] t from pos l h = tt
  stamps-Spaced ((d, r) ∷ rest) t from pos l h = elim (Bool-cases (fires d r t)) [
    | inl fired ↦
        let t' = (diagnose ips d r t).0 in
        let e = rw fired at (k.keeps d r t) in
        let late = later_than d r t from pos l h.0 (omega arith) fired in
        rw fired (
          omega arith,
          rw e at (stamps-Spaced rest t' ((timer d).mark) (omega arith) (omega arith) h.3),
        )
    | inr idle ↦
        let t' = (diagnose ips d r t).0 in
        let e = rw idle at (k.keeps d r t) in
        rw idle (rw e at (stamps-Spaced rest t' ((timer d).mark) (omega arith) (omega arith) h.3))
  ]

  stamps-SpacedApart :
      (ds : List (Report × Router)) (t : Timers) (from : ℕ)
      → 0 < from
      → Follows timer from ds
      → SpacedApart every (stamps ips fires timer ds t)
  unfolding stamps
  stamps-SpacedApart [] t from pos h = tt
  stamps-SpacedApart ((d, r) ∷ rest) t from pos h = elim (Bool-cases (fires d r t)) [
    | inl fired ↦
        let t' = (diagnose ips d r t).0 in
        let e = rw fired at (k.keeps d r t) in
        rw fired (rw e at (stamps-Spaced rest t' ((timer d).mark) (omega arith) (omega arith) h.3))
    | inr idle ↦
        rw idle (stamps-SpacedApart rest (diagnose ips d r t).0 ((timer d).mark) (omega arith) h.3)
  ]

-- What an iteration runs, once it is known when its timer fires.
runs-IsTimer :
    (ips : AddressText) (every : ℕ) (ran fires : Report → Router → Timers → Bool)
    (timer : Report → Reading) (last : Timers → ℕ)
    → ((d : Report) (r : Router) (t : Timers) → ran d r t ≡ fires d r t)
    → IsTimer ips every fires timer last
    → IsTimer ips every ran timer last
runs-IsTimer ips every ran fires timer last same k = record {
  fires_late = λ d r t f. k.fires_late d r t (sym (same d r t) ∙ f);
  keeps =
      λ d r t. k.keeps d r t ∙ ap (λ b. stamp_if b ((timer d).mark) (last t)) (sym (same d r t));
}

scan-IsTimer :
    (ips : AddressText) → IsTimer ips scan_every_ms scan_fires (λ d. d.scan_at) (λ t. t.last_scan)
unfolding scan_fires due_or_first due diagnose
scan-IsTimer ips = record { fires_late = λ d r t f. ground arith; keeps = λ d r t. refl }

test-IsTimer :
    (ips : AddressText)
    → IsTimer ips scan_every_ms test_fires (λ d. d.test_at) (λ t. t.last_self_test)
unfolding test_fires due_or_first due diagnose
test-IsTimer ips = record { fires_late = λ d r t f. ground arith; keeps = λ d r t. refl }

ap-IsTimer :
    (ips : AddressText) → IsTimer ips ap_log_every_ms ap_fires (λ d. d.ap_at) (λ t. t.last_ap_log)
unfolding ap_fires due diagnose
ap-IsTimer ips = record { fires_late = λ d r t f. ground arith; keeps = λ d r t. refl }

status-IsTimer :
    (ips : AddressText)
    → IsTimer ips status_log_every_ms status_fires (λ d. d.status_at) (λ t. t.last_status_log)
unfolding status_fires due diagnose
status-IsTimer ips = record { fires_late = λ d r t f. ground arith; keeps = λ d r t. refl }

-- While the clock goes forward and does not wrap, and from any state of the timers: whatever the router
-- does, more than 30 s lie between the iterations in which a scan runs, which blocks the loop, and between
-- those in which a self-test does, more than 5 s between those that log a snapshot, and more than 3 s
-- between those that log the station's status, each by the readings that stamp its timer.
pub diagnose-SpacedApart :
    (ips : AddressText) (ds : List (Report × Router)) (t : Timers)
    → Follows (λ d. d.scan_at) 1 ds
    → Follows (λ d. d.test_at) 1 ds
    → Follows (λ d. d.ap_at) 1 ds
    → Follows (λ d. d.status_at) 1 ds
    → SpacedApart 30000 (stamps ips (runs ips is_scan) (λ d. d.scan_at) ds t)
      × SpacedApart 30000 (stamps ips (runs ips is_test) (λ d. d.test_at) ds t)
      × SpacedApart 5000 (stamps ips (runs ips is_snapshot) (λ d. d.ap_at) ds t)
      × SpacedApart 3000 (stamps ips (runs ips is_station) (λ d. d.status_at) ds t)
diagnose-SpacedApart ips ds t scans tests aps statuses = (
  stamps-SpacedApart ips scan_every_ms (runs ips is_scan) (λ d. d.scan_at) (λ t. t.last_scan)
      (runs-IsTimer ips _ _ _ _ _ (runs-scan ips) (scan-IsTimer ips)) ds t 1 (omega arith) scans,
  stamps-SpacedApart ips scan_every_ms (runs ips is_test) (λ d. d.test_at) (λ t. t.last_self_test)
      (runs-IsTimer ips _ _ _ _ _ (runs-test ips) (test-IsTimer ips)) ds t 1 (omega arith) tests,
  stamps-SpacedApart ips ap_log_every_ms (runs ips is_snapshot) (λ d. d.ap_at) (λ t. t.last_ap_log)
      (runs-IsTimer ips _ _ _ _ _ (runs-snapshot ips) (ap-IsTimer ips)) ds t 1 (omega arith) aps,
  stamps-SpacedApart ips status_log_every_ms (runs ips is_station) (λ d. d.status_at)
      (λ t. t.last_status_log) (runs-IsTimer ips _ _ _ _ _ (runs-station ips) (status-IsTimer ips))
      ds t 1 (omega arith) statuses,
)
