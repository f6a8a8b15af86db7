-- ===== src/Router/Link.antt =====
-- The uplink as a state machine of three states, and the code as its refinement. The three flags are
-- read together; an event, or a phase of the loop, is one step.
use spool_gate.Base.{
  ℕ, ◌≡◌, refl, Bool, true, false, ◌||◌, leb, Option, none, some, List, [], ◌∷◌, arith, Bool-cases,
  inl, inr,
}
use spool_gate.Config.{Settings}
use spool_gate.Watchdog
use spool_gate.Router.{
  Router, initial, start_attempt, poll_radio, reconcile_napt, enable_napt, disable_napt,
  schedule_reconnect,
}
use spool_gate.Router.Events.{
  Event, sta_connected, sta_have_ip, sta_disconnected, sta_lost_ip, ap_sta_connected,
  ap_sta_ip_assigned, ap_sta_disconnected, other, on_wifi_event,
}
use spool_gate.Router.Loop.{
  System, Inputs, Phase, feed_watchdog, sample_radio, reconcile, probe, recover_uplink,
  recover_client, watch_channel, beat, show_state, bound_attempt, reconnect, setup, loop,
  client_probeable, hard_timeout, gave_up, uplink_dead,
}

pub data Link : Type 0 where
  up trying waiting : Link

-- The state that the flags spell: exactly one of the three is set.
abbrev spell : Bool → Bool → Bool → Option Link
spell true false false = some up
spell false true false = some trying
spell false false true = some waiting
spell _ _ _ = none

abbrev pub link_of : Router → Option Link
link_of r = spell r.uplink_ready r.attempt_active r.reconnect_pending

-- The specification: how the uplink may move.
pub data Move : Link → Link → Type 0 where
  stay : {l : Link} → Move l l
  got_ip : {l : Link} → Move l up
  lost : Move up waiting
  timed_out : Move trying waiting
  due : Move waiting trying

-- One step: an event with its readings of the clock, or a phase of the loop.
pub data Step : Type 0 where
  event : ℕ → ℕ → Event → Step
  feeds samples reconciles recovers_uplink beats shows bounds reconnects : Inputs → Step
  probes : Bool → Inputs → Step
  recovers_client : Bool → Step
  watches : Step

unfoldable pub step : Step → System → Phase
step (event now schedule_now e) s =
    let (r, es) = on_wifi_event now schedule_now e s.router in (record s { router = r }, es)
step (feeds i) s = feed_watchdog i s
step (samples i) s = sample_radio i s
step (reconciles i) s = reconcile i s
step (probes p i) s = probe p i s
step (recovers_uplink i) s = recover_uplink i s
step (recovers_client p) s = recover_client p s
step watches s = watch_channel s
step (beats i) s = beat i s
step (shows i) s = show_state i s
step (bounds i) s = bound_attempt i s
step (reconnects i) s = reconnect i s

unfoldable pub run : List Step → System → System
run [] s = s
run (a ∷ rest) s = run rest (step a s).0

-- What a step from state `l` leaves.
abbrev pub Moved : Link → Router → Type 0
Moved l r = (l' : Link) × (link_of r ≡ some l') × Move l l'

-- Phases that leave the three flags alone.
same_flags :
    (l : Link) (r r' : Router)
    → link_of r ≡ some l
    → r'.uplink_ready ≡ r.uplink_ready
    → r'.attempt_active ≡ r.attempt_active
    → r'.reconnect_pending ≡ r.reconnect_pending
    → Moved l r'
same_flags l r r' h a b c = (l, rw (a, b, c) h, stay)

event-Moved :
    (l : Link) (now schedule_now : ℕ) (e : Event) (r : Router)
    → link_of r ≡ some l
    → Moved l (on_wifi_event now schedule_now e r).0
unfolding on_wifi_event schedule_reconnect disable_napt
event-Moved l now schedule_now sta_connected r h = (l, h, stay)
event-Moved l now schedule_now (sta_have_ip ip gateway dns channel) r h = (up, refl, got_ip)
event-Moved up now schedule_now sta_disconnected r h = (waiting, ground arith, lost)
event-Moved trying now schedule_now sta_disconnected r h = (trying, ground arith, stay)
event-Moved waiting now schedule_now sta_disconnected r h = (waiting, ground arith, stay)
event-Moved up now schedule_now sta_lost_ip r h = (waiting, ground arith, lost)
event-Moved trying now schedule_now sta_lost_ip r h = (trying, ground arith, stay)
event-Moved waiting now schedule_now sta_lost_ip r h = (waiting, ground arith, stay)
event-Moved l now schedule_now ap_sta_connected r h = (l, h, stay)
event-Moved l now schedule_now (ap_sta_ip_assigned ip) r h = (l, h, stay)
event-Moved l now schedule_now (ap_sta_disconnected n) r h = (l, ground arith, stay)
event-Moved l now schedule_now other r h = (l, h, stay)

recover_uplink-Moved :
    (l : Link) (i : Inputs) (s : System)
    → link_of s.router ≡ some l
    → Moved l (recover_uplink i s).0.router
unfolding recover_uplink schedule_reconnect
recover_uplink-Moved up i s h = elim (Bool-cases (uplink_dead s)) [
  | inl e ↦ rw e (waiting, refl, lost)
  | inr e ↦ rw e (up, h, stay)
]
recover_uplink-Moved trying i s h = (trying, ground arith, stay)
recover_uplink-Moved waiting i s h = (waiting, ground arith, stay)

bound_attempt-Moved :
    (l : Link) (i : Inputs) (s : System)
    → link_of s.router ≡ some l
    → Moved l (bound_attempt i s).0.router
unfolding bound_attempt schedule_reconnect
bound_attempt-Moved up i s h = (up, ground arith, stay)
bound_attempt-Moved waiting i s h = (waiting, ground arith, stay)
bound_attempt-Moved trying i s h =
    elim (Bool-cases (hard_timeout i s.router || gave_up i s.router)) [
      | inl e ↦ (waiting, ground arith, timed_out)
      | inr e ↦ (trying, ground arith, stay)
    ]

reconnect-Moved :
    (l : Link) (i : Inputs) (s : System)
    → link_of s.router ≡ some l
    → Moved l (reconnect i s).0.router
unfolding reconnect start_attempt
reconnect-Moved up i s h = (up, ground arith, stay)
reconnect-Moved trying i s h = (trying, ground arith, stay)
reconnect-Moved waiting i s h = elim (Bool-cases (leb s.router.reconnect_at_ms i.due_now)) [
  | inl e ↦ (trying, ground arith, due)
  | inr e ↦ (waiting, ground arith, stay)
]

FlagsKept : (a : Step) (s : System) → Type 0
FlagsKept a s =
    ((step a s).0.router.uplink_ready ≡ s.router.uplink_ready)
    × ((step a s).0.router.attempt_active ≡ s.router.attempt_active)
    × ((step a s).0.router.reconnect_pending ≡ s.router.reconnect_pending)

kept-Moved :
    (l : Link) (a : Step) (s : System)
    → link_of s.router ≡ some l
    → FlagsKept a s
    → Moved l (step a s).0.router
unfolding FlagsKept
kept-Moved l a s h (p, q, r) = same_flags l s.router (step a s).0.router h p q r

-- Every event and every phase of the loop moves the uplink as the specification allows, from one of
-- its three states to one of them.
pub step-Moved :
    (l : Link) (a : Step) (s : System) → link_of s.router ≡ some l → Moved l (step a s).0.router
unfolding step feed_watchdog sample_radio poll_radio reconcile reconcile_napt enable_napt
    disable_napt probe recover_client watch_channel beat show_state FlagsKept
step-Moved l (event now schedule_now e) s h = event-Moved l now schedule_now e s.router h
step-Moved l (recovers_uplink i) s h = recover_uplink-Moved l i s h
step-Moved l (bounds i) s h = bound_attempt-Moved l i s h
step-Moved l (reconnects i) s h = reconnect-Moved l i s h
step-Moved l (feeds i) s h = kept-Moved l (feeds i) s h (refl, refl, refl)
step-Moved l (samples i) s h =
    kept-Moved l (samples i) s h (ground arith, ground arith, ground arith)
step-Moved l (reconciles i) s h =
    kept-Moved l (reconciles i) s h (ground arith, ground arith, ground arith)
step-Moved l (probes p i) s h = kept-Moved l (probes p i) s h (refl, refl, refl)
step-Moved l (recovers_client p) s h =
    kept-Moved l (recovers_client p) s h (ground arith, ground arith, ground arith)
step-Moved l watches s h = kept-Moved l watches s h (ground arith, ground arith, ground arith)
step-Moved l (beats i) s h = kept-Moved l (beats i) s h (ground arith, ground arith, ground arith)
step-Moved l (shows i) s h = kept-Moved l (shows i) s h (refl, refl, refl)

-- Moves one after another.
pub data Moves : Link → Link → Type 0 where
  here : {l : Link} → Moves l l
  next : {l m n : Link} → Move l m → Moves m n → Moves l n

pub run-Moves :
    (steps : List Step) (l : Link) (s : System)
    → link_of s.router ≡ some l
    → (l' : Link) × (link_of (run steps s).router ≡ some l') × Moves l l'
unfolding run
run-Moves [] l s h = (l, h, here)
run-Moves (a ∷ rest) l s h =
    let (m, e, move) = step-Moved l a s h in
    let (n, e', moves) = run-Moves rest m (step a s).0 e in (n, e', next move moves)

pub setup-trying :
    (reason : Watchdog.ResetReason) (created : Bool) (t₀ t₁ : ℕ) (settings : Settings)
    (ap_ok : Bool) (t₂ : ℕ) (s : System)
    → s.router ≡ initial
    → link_of (setup reason created t₀ t₁ settings ap_ok t₂ s).0.router ≡ some trying
unfolding setup start_attempt initial
setup-trying reason created t₀ t₁ settings ap_ok t₂ s e = ground arith

-- The uplink is never stranded: after `setup`, and any events and phases of the loop in any order and
-- at any times, exactly one of the flags says that the uplink is up, that an attempt runs, or that a
-- reconnect is due, and it got there by moves of the specification.
pub never_stranded :
    (reason : Watchdog.ResetReason) (created : Bool) (t₀ t₁ : ℕ) (settings : Settings)
    (ap_ok : Bool) (t₂ : ℕ) (s : System) (steps : List Step)
    → s.router ≡ initial
    → (l : Link) × (link_of (run steps (setup reason created t₀ t₁ settings ap_ok t₂ s).0).router
        ≡ some l)
      × Moves trying l
never_stranded reason created t₀ t₁ settings ap_ok t₂ s steps e =
    run-Moves steps trying (setup reason created t₀ t₁ settings ap_ok t₂ s).0
      (setup-trying reason created t₀ t₁ settings ap_ok t₂ s e)

-- The steps that one call of `loop` makes, when no event comes in between.
abbrev pub loop_steps : Inputs → System → List Step
loop_steps i s =
    let p = client_probeable (run (feeds i ∷ samples i ∷ reconciles i ∷ []) s).router in
    feeds i
    ∷ samples i
    ∷ reconciles i
    ∷ probes p i
    ∷ recovers_uplink i
    ∷ recovers_client p
    ∷ watches
    ∷ beats i
    ∷ shows i
    ∷ bounds i
    ∷ reconnects i
    ∷ []

pub loop-run : (i : Inputs) (s : System) → (loop i s).0 ≡ run (loop_steps i s) s
unfolding loop run step
loop-run i s = refl
