-- ===== src/Health/Rounds.antt =====
-- When a round starts, and what a call of `update` does to a direction that has no address.
use spool_gate.Base.{◌≤◌, ◌≡◌, ◌≢◌, ◌⊎◌, true, false, [], ◌++◌, arith, sub32, is_unset}
use spool_gate.Health.{
  Health, Probe, unknown, Tick, harvest, continue, start_round, start_if_set, round_due,
  round_interval_ms, update,
}
use spool_gate.Health.Sessions.{opens, opens-append}

opens-harvest : (p : Probe) → opens (harvest p).1 ≡ 0
unfolding harvest
opens-harvest p = ground arith

-- The state between the calls of `harvest` and the rest of `update`.
abbrev harvested : Health → Health
harvested h = record h { up = (harvest h.up).0; down = (harvest h.down).0 }

opens-update : (t : Tick) (h : Health) → opens (update t h).1 ≡ opens (continue t (harvested h)).1
unfolding update
opens-update t h = omega (
  arith,
  opens-append (harvest h.up).1 ((harvest h.down).1 ++ (continue t (harvested h)).1),
  opens-append (harvest h.down).1 (continue t (harvested h)).1,
  opens-harvest h.up,
  opens-harvest h.down,
)

opens-continue :
    (t : Tick) (h : Health)
    → opens (continue t h).1 ≢ 0
    → (t.uplink_ready ≡ true)
      × ((h.last_round_ms ≡ 0) ⊎ (round_interval_ms ≤ sub32 t.now h.last_round_ms))
      × (h.up.running ≡ false)
      × (h.down.running ≡ false)
      × ((continue t h).0.last_round_ms ≡ t.mark)
unfolding continue round_due start_round
opens-continue t h e = ground arith

continue_off :
    (t : Tick) (h : Health)
    → t.uplink_ready ≡ false
    → continue t h ≡ (record h { up = record (h.up) { result = unknown; fail_streak = 0 } }, [])
unfolding continue
continue_off t h off = rw off

-- A call of `update` opens a session only if the uplink is up, no session of the previous round is
-- left, and either a minute has gone by since the last round or there is none on record; the round
-- is then stamped with the call's second reading of the clock.
pub update_starts :
    (t : Tick) (h : Health)
    → opens (update t h).1 ≢ 0
    → (t.uplink_ready ≡ true)
      × ((h.last_round_ms ≡ 0) ⊎ (round_interval_ms ≤ sub32 t.now h.last_round_ms))
      × ((harvest h.up).0.running ≡ false)
      × ((harvest h.down).0.running ≡ false)
      × ((update t h).0.last_round_ms ≡ t.mark)
unfolding update
update_starts t h some_opened = opens-continue t (harvested h) (rw opens-update at some_opened)

-- While the uplink has no address the upstream direction is unknown and has no failures on record,
-- no session is opened, and the round clock stands still.
pub update_not_ready :
    (t : Tick) (h : Health)
    → t.uplink_ready ≡ false
    → ((update t h).0.up.result ≡ unknown)
      × ((update t h).0.up.fail_streak ≡ 0)
      × (opens (update t h).1 ≡ 0)
      × ((update t h).0.last_round_ms ≡ h.last_round_ms)
unfolding update
update_not_ready t h off = ground (arith, continue_off t (harvested h) off, opens-update t h)

-- Without a client's address the downstream direction is left as its last round left it: a result,
-- a streak and `ever_ok` of a client that is gone stay.
pub update_no_client :
    (t : Tick) (h : Health) → is_unset t.client ≡ true → ((update t h).0.down ≡ (harvest h.down).0)
unfolding update continue start_round start_if_set
update_no_client t h e = ground arith
