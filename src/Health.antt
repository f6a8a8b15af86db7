-- ===== src/Health.antt =====
-- src/net/health.h and src/net/health.cpp: the reachability probes. lwIP's ping sessions are not
-- under src/: what their creation returns is an argument, and what the code asks of them, and what
-- it logs, is the list of effects that a function returns beside the new state.
pub mod Rounds
pub mod Streak
pub mod Sessions
pub mod Ledger
pub mod Lines
use spool_gate.Base.{
  ℕ, ◌+◌, ◌%◌, Bool, true, false, not, ◌&&◌, ◌||◌, Option, none, some, List, [], ◌∷◌, ◌++◌, String,
  ltb, ◌==◌, if◌then◌else◌, sub32, u32_mod, Address, is_unset,
}

abbrev pub round_interval_ms : ℕ
round_interval_ms = 60000

pub data Result : Type 0 where
  unknown ok failed : Result

pub record Probe : Type 0 where
  pub name : String
  pub handle : Option ℕ
  pub replies : ℕ  -- uint32_t, bumped by the ping task
  pub finished : Bool  -- set by the ping task
  pub running : Bool
  pub result : Result
  pub fail_streak : ℕ  -- uint8_t
  pub ever_ok : Bool

pub data Effect : Type 0 where
  open_session : ℕ → Address → Effect
  start_session stop_session delete_session : Option ℕ → Effect
  log_recovered : String → Effect
  log_unreachable : String → ℕ → Effect

-- What `esp_ping_new_session` and `esp_ping_start` return; a session has a handle.
pub data Outcome : Type 0 where
  no_session : Outcome
  not_started started : ℕ → Outcome

pub record Health : Type 0 where
  pub up : Probe
  pub down : Probe
  pub last_round_ms : ℕ

pub fresh_probe : String → Probe
fresh_probe name = record {
  name = name;
  handle = none;
  replies = 0;
  finished = false;
  running = false;
  result = unknown;
  fail_streak = 0;
  ever_ok = false;
}

unfoldable pub initial : Health
unfolding fresh_probe
initial = record { up = fresh_probe ""; down = fresh_probe ""; last_round_ms = 0 }

unfoldable pub begin : Health → Health
begin h = record {
  up = record (h.up) { name = "upstream gateway" };
  down = record (h.down) { name = "downstream client" };
  last_round_ms = 0;
}

unfoldable pub on_ping_success : Probe → Probe
on_ping_success p = record p { replies = (p.replies + 1) % u32_mod }

unfoldable pub on_ping_end : Probe → Probe
on_ping_end p = record p { finished = true }

-- A session that is to run: `start_session` stands for the call of `esp_ping_start`.
unfoldable pub open_probe : Outcome → Address → Probe → Probe × List Effect
open_probe no_session target p = (record p { handle = none }, [])
open_probe (not_started h) target p = (
  record p { handle = none },
  open_session h target ∷ start_session (some h) ∷ delete_session (some h) ∷ [],
)
open_probe (started h) target p = (
  record p { handle = some h; running = true },
  open_session h target ∷ start_session (some h) ∷ [],
)

unfoldable pub start_probe : Outcome → Address → Probe → Probe × List Effect
unfolding open_probe
start_probe outcome target p =
    if p.running
    then (p, [])
    else open_probe outcome target (record p { replies = 0; finished = false })

-- The part of `harvest` between its guard and the end of the session.
unfoldable pub judge : Probe → Probe × List Effect
judge p =
    if ltb 0 p.replies
    then (
      record p { result = ok; ever_ok = true; fail_streak = 0 },
      if p.fail_streak == 0 then [] else log_recovered p.name ∷ [],
    )
    else (let streak = if ltb p.fail_streak 255 then p.fail_streak + 1 else p.fail_streak in
        (record p { result = failed; fail_streak = streak }, log_unreachable p.name streak ∷ []))

unfoldable pub harvest : Probe → Probe × List Effect
unfolding judge
harvest p =
    if not p.running || not p.finished
    then (p, [])
    else (let (q, logged) = judge p in
        (
          record q { handle = none; running = false },
          logged ++ stop_session q.handle ∷ delete_session q.handle ∷ [],
        ))

-- The arguments of one call of `update`, its two readings of the clock, and what the ping library
-- answers if a session is asked for.
pub record Tick : Type 0 where
  pub uplink_ready : Bool
  pub gateway : Address
  pub client : Address
  pub now : ℕ
  pub mark : ℕ
  pub up_outcome : Outcome
  pub down_outcome : Outcome

unfoldable pub round_due : Tick → Health → Bool
round_due t h =
    (h.last_round_ms == 0 || not (ltb (sub32 t.now h.last_round_ms) round_interval_ms))
    && not (h.up.running || h.down.running)

unfoldable pub start_if_set : Outcome → Address → Probe → Probe × List Effect
unfolding start_probe
start_if_set outcome target p = if is_unset target then (p, []) else start_probe outcome target p

-- The end of `update`: a round of probes.
unfoldable pub start_round : Tick → Health → Health × List Effect
unfolding start_if_set
start_round t h =
    let (up, e₁) = start_if_set t.up_outcome t.gateway h.up in
    let (down, e₂) = start_if_set t.down_outcome t.client h.down in
    (record { up = up; down = down; last_round_ms = t.mark }, e₁ ++ e₂)

-- `update` after the two calls of `harvest`.
unfoldable pub continue : Tick → Health → Health × List Effect
unfolding round_due start_round
continue t h =
    if not t.uplink_ready
    then (record h { up = record (h.up) { result = unknown; fail_streak = 0 } }, [])
    else (if round_due t h then start_round t h else (h, []))

unfoldable pub update : Tick → Health → Health × List Effect
update t h =
    let (up, e₁) = harvest h.up in
    let (down, e₂) = harvest h.down in
    let (h', e₃) = continue t (record h { up = up; down = down }) in (h', e₁ ++ (e₂ ++ e₃))

abbrev pub upstream : Health → Result
upstream h = h.up.result

abbrev pub downstream : Health → Result
downstream h = h.down.result

abbrev pub upstream_fail_streak : Health → ℕ
upstream_fail_streak h = h.up.fail_streak

abbrev pub downstream_fail_streak : Health → ℕ
downstream_fail_streak h = h.down.fail_streak

abbrev pub upstream_ever_ok : Health → Bool
upstream_ever_ok h = h.up.ever_ok

abbrev pub downstream_ever_ok : Health → Bool
downstream_ever_ok h = h.down.ever_ok

unfoldable pub reset_streaks : Health → Health
reset_streaks h = record h {
  up = record (h.up) { fail_streak = 0 };
  down = record (h.down) { fail_streak = 0 };
}

-- What can happen to the state: the calls of loop(), and the callbacks on the ping task.
pub data Action : Type 0 where
  ticks : Tick → Action
  resets up_replies up_ends down_replies down_ends : Action

unfoldable pub step : Action → Health → Health × List Effect
step (ticks t) h = update t h
step resets h = (reset_streaks h, [])
step up_replies h = (record h { up = on_ping_success h.up }, [])
step up_ends h = (record h { up = on_ping_end h.up }, [])
step down_replies h = (record h { down = on_ping_success h.down }, [])
step down_ends h = (record h { down = on_ping_end h.down }, [])

unfoldable pub run : List Action → Health → Health × List Effect
run [] h = (h, [])
run (a ∷ rest) h = let (h', e) = step a h in let (h'', es) = run rest h' in (h'', e ++ es)
