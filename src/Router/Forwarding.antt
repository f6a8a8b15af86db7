-- ===== src/Router/Forwarding.antt =====
-- When packets are forwarded: NAPT against the uplink, the clients and their leases.
use spool_gate.Base.{
  ℕ, ◌<◌, ◌≤◌, ◌≡◌, refl, sym, Bool, true, false, List, [], ◌∷◌, arith, ltb, leb, Option, none,
  some, Option-cases, inl, inr, Address, if◌then◌else◌, add32, IsU32, ◌||◌, ◌&&◌, not,
}
use spool_gate.Net.Napt as Switch
use spool_gate.Router.{
  Router, Effect, log, napt, bool_eq, and_log, napt_on, napt_off, disable_napt, enable_napt,
  reconcile_napt, want_napt, lease_settled, schedule_reconnect, napt_lease_grace_ms,
}
use spool_gate.Router.Events.{
  Event, sta_disconnected, sta_lost_ip, ap_sta_connected, ap_sta_ip_assigned, on_wifi_event,
  lose_link,
}
use spool_gate.Router.Loop.{System, Inputs, recover_uplink, uplink_dead}

-- One event with its two readings of the clock.
pub record Timed : Type 0 where
  pub now : ℕ
  pub schedule_now : ℕ
  pub what : Event

unfoldable pub events : List Timed → Router → Router
events [] r = r
events (e ∷ es) r = events es (on_wifi_event e.now e.schedule_now e.what r).0

-- Nothing is forwarded into a dead uplink.
pub record IsBacked (r : Router) : Type 0 where
  pub backed : (r.napt_enabled && not r.uplink_ready) ≡ false

enabled_of : Bool → Bool → Bool → Bool
enabled_of want ok on = want && (on || ok)

switched :
    (want ok : Bool) (r : Router)
    → (if bool_eq want r.napt_enabled
        then (r, [])
        else (if want
            then and_log napt_on (enable_napt ok r)
            else and_log napt_off (disable_napt r))).0
      ≡ record r { napt_enabled = enabled_of want ok r.napt_enabled }
unfolding enable_napt disable_napt Switch.enable Switch.disable enabled_of
switched true ok r = ground arith
switched false ok r = ground arith

-- A reconciliation changes nothing but the switch, which is on after it if it is wanted, and was on before
-- or the driver does as it is asked.
reconcile_napt_lem :
    (now : ℕ) (ok : Bool) (r : Router)
    → (reconcile_napt now ok r).0 ≡ record r {
      napt_enabled =
          (r.uplink_ready && (ltb 0 r.radio_stations && lease_settled now r))
          && (r.napt_enabled || ok);
    }
unfolding reconcile_napt enabled_of
reconcile_napt_lem now ok r = switched (want_napt now r) ok r

-- What is asked of the driver and logged, by whether NAPT is wanted and was on.
abbrev pub asked : Bool → Bool → List Effect
asked true true = []
asked true false = napt (Switch.enable_napt true) ∷ log napt_on ∷ []
asked false true = napt (Switch.enable_napt false) ∷ log napt_off ∷ []
asked false false = []

switched-asked :
    (want ok on : Bool) (r : Router)
    → r.napt_enabled ≡ on
    → (if bool_eq want r.napt_enabled
        then (r, [])
        else (if want
            then and_log napt_on (enable_napt ok r)
            else and_log napt_off (disable_napt r))).1
      ≡ asked want r.napt_enabled
unfolding enable_napt disable_napt Switch.enable Switch.disable
switched-asked true ok true r e = rw e refl
switched-asked true ok false r e = rw e refl
switched-asked false ok true r e = rw e refl
switched-asked false ok false r e = rw e refl

reconcile_napt-asked :
    (now : ℕ) (ok : Bool) (r : Router)
    → (reconcile_napt now ok r).1
      ≡ asked (r.uplink_ready && (ltb 0 r.radio_stations && lease_settled now r)) r.napt_enabled
unfolding reconcile_napt
reconcile_napt-asked now ok r = switched-asked (want_napt now r) ok r.napt_enabled r refl

reconcile_napt-IsBacked : (now : ℕ) (ok : Bool) (r : Router) → IsBacked (reconcile_napt now ok r).0
reconcile_napt-IsBacked now ok r =
    rw (reconcile_napt_lem now ok r) (record { backed = ground arith })

event-IsBacked :
    (now schedule_now : ℕ) (e : Event) (r : Router)
    → IsBacked r
    → IsBacked (on_wifi_event now schedule_now e r).0
unfolding on_wifi_event schedule_reconnect disable_napt Switch.disable lose_link
event-IsBacked now schedule_now sta_disconnected r h = ground arith
event-IsBacked now schedule_now sta_lost_ip r h = ground arith
event-IsBacked now schedule_now e r h = ground arith

pub events-IsBacked : (es : List Timed) (r : Router) → IsBacked r → IsBacked (events es r)
unfolding events
events-IsBacked [] r h = h
events-IsBacked (e ∷ es) r h =
    events-IsBacked es (on_wifi_event e.now e.schedule_now e.what r).0
      (event-IsBacked e.now e.schedule_now e.what r h)

-- From any state, after a reconciliation and any events behind it, NAPT is on only while the uplink
-- holds an address: a lost link switches it off in the event itself.
pub reconcile-events-IsBacked :
    (now : ℕ) (ok : Bool) (es : List Timed) (r : Router)
    → IsBacked (events es (reconcile_napt now ok r).0)
reconcile-events-IsBacked now ok es r =
    events-IsBacked es (reconcile_napt now ok r).0 (reconcile_napt-IsBacked now ok r)

-- A client that associates on a lease it still holds, and so never asks for one, is forwarded from
-- eight seconds later on: a reconciliation at that time switches NAPT on if the driver does.
pub grace-forwards :
    (t t' now d : ℕ) (r : Router)
    → IsU32 t
    → 0 < t
    → IsU32 d
    → now ≡ add32 t d
    → napt_lease_grace_ms ≤ d
    → r.uplink_ready ≡ true
    → 0 < r.radio_stations
    → let r₁ = (on_wifi_event t t' ap_sta_connected r).0 in
      (reconcile_napt now true r₁).0.napt_enabled ≡ true
unfolding on_wifi_event lease_settled
grace-forwards t t' now d r ht pos hd e late ready joined =
    ground (arith, reconcile_napt_lem now true (on_wifi_event t t' ap_sta_connected r).0)

-- Until then, and until a lease is issued, NAPT is off after a reconciliation, so that the client's
-- DHCP exchange can finish.
pub grace-holds :
    (t t' now d : ℕ) (ok : Bool) (r : Router)
    → IsU32 t
    → d < napt_lease_grace_ms
    → now ≡ add32 t d
    → let r₁ = (on_wifi_event t t' ap_sta_connected r).0 in
      (reconcile_napt now ok r₁).0.napt_enabled ≡ false
unfolding on_wifi_event lease_settled
grace-holds t t' now d ok r ht early e =
    ground (arith, reconcile_napt_lem now ok (on_wifi_event t t' ap_sta_connected r).0)

-- The recovery of a dead uplink takes the uplink down and leaves NAPT as it is: on, it stays on until
-- an event or the next iteration.
pub recover_uplink-forwards :
    (i : Inputs) (s : System)
    → uplink_dead s ≡ true
    → s.router.napt_enabled ≡ true
    → let r = (recover_uplink i s).0.router in (r.napt_enabled ≡ true) × (r.uplink_ready ≡ false)
unfolding recover_uplink schedule_reconnect
recover_uplink-forwards i s dead on = ground arith

abbrev pub is_given : Option Address → Bool
is_given none = false
is_given (some ip) = true

-- What happens between a client's association and a reconciliation: whether it asked for a lease.
abbrev pub joined : ℕ → ℕ → Option Address → Router → Router
joined t t' none r = (on_wifi_event t t' ap_sta_connected r).0
joined t t' (some ip) r =
    (on_wifi_event t t' (ap_sta_ip_assigned ip) (on_wifi_event t t' ap_sta_connected r).0).0

settled-joined :
    (t t' now d : ℕ) (r : Router)
    → IsU32 t
    → 0 < t
    → IsU32 d
    → now ≡ add32 t d
    → lease_settled now (joined t t' none r) ≡ leb 8000 d
unfolding on_wifi_event lease_settled
settled-joined t t' now d r ht pos hd e = ground arith

-- What a reconciliation does to a router on which NAPT is wanted, or is not.
abbrev pub Reconciled : Bool → Bool → Router → Router × List Effect → Type 0
Reconciled want ok r x =
    (x.0 ≡ record r { napt_enabled = want && (r.napt_enabled || ok) })
    × (x.1 ≡ asked want r.napt_enabled)

reconcile_napt-Reconciled :
    (now : ℕ) (ok want : Bool) (r : Router)
    → lease_settled now r ≡ want
    → Reconciled (r.uplink_ready && (ltb 0 r.radio_stations && want)) ok r (reconcile_napt now ok r)
reconcile_napt-Reconciled now ok want r e =
    rw (sym e) (reconcile_napt_lem now ok r, reconcile_napt-asked now ok r)

-- When a client is forwarded. After it associated at a reading `t` of the clock other than 0, and whether
-- or not it was issued a lease since, NAPT is wanted `d` ms later, across a wrap of the clock too, exactly
-- if the uplink is up, a client is counted, and the lease was issued or eight seconds have passed. A
-- reconciliation at that time changes nothing but the switch, which is on then if NAPT is wanted and was on
-- before or the driver does as it is asked; and it calls the driver and logs only to change the switch.
pub reconcile_napt-joined :
    (t t' now d : ℕ) (lease : Option Address) (ok : Bool) (r : Router)
    → IsU32 t
    → 0 < t
    → IsU32 d
    → now ≡ add32 t d
    → Reconciled
        (r.uplink_ready && (ltb 0 r.radio_stations && (is_given lease || leb 8000 d)))
        ok
        (joined t t' lease r)
        (reconcile_napt now ok (joined t t' lease r))
unfolding on_wifi_event
reconcile_napt-joined t t' now d lease ok r ht pos hd e = elim (Option-cases lease) [
  | inl none_issued ↦ rw none_issued (
      reconcile_napt-Reconciled now ok (leb 8000 d) (joined t t' none r)
        (settled-joined t t' now d r ht pos hd e))
  | inr (ip, issued) ↦ rw issued (
      reconcile_napt-Reconciled now ok true (joined t t' (some ip) r)
        (unfold lease_settled in refl))
]
