-- ===== src/Router/Events.antt =====
-- `onWiFiEvent` of src/main.cpp.
use spool_gate.Base.{ℕ, true, false, not, List, [], ◌∷◌, ◌++◌, ◌==◌, if◌then◌else◌, Address, unset}
use spool_gate.Router.{
  Router, Effect, log, sta_associated, sta_got_ip, sta_addresses, napt_off_uplink_lost,
  printer_associated, printer_left, lease_issued, backoff_initial_ms, disable_napt,
  schedule_reconnect,
}

pub data Event : Type 0 where
  sta_connected sta_disconnected sta_lost_ip ap_sta_connected : Event
  sta_have_ip : Address → Address → Address → ℕ → Event  -- ip gateway dns channel
  ap_sta_ip_assigned : Address → Event
  ap_sta_disconnected : ℕ → Event  -- with the stations that the driver still counts
  other : Event

unfoldable pub drop_napt : Router → Router × List Effect
drop_napt r =
    if r.napt_enabled
    then (let (r', es) = disable_napt r in (r', es ++ log napt_off_uplink_lost ∷ []))
    else (r, [])

-- The case of the two events that end a link.
unfoldable pub lose_link : ℕ → ℕ → Router → Router × List Effect
unfolding drop_napt
lose_link now schedule_now r =
    let (r₁, e₁) = drop_napt (record r { uplink_ready = false }) in
    let r₂ = record r₁ { attempt_associated = false; last_disconnect_ms = now } in
    if not r₂.attempt_active
    then (let (r₃, e₂) = schedule_reconnect schedule_now r₂ in (r₃, e₁ ++ e₂))
    else (r₂, e₁)

-- The handler, with the readings of the clock in the case and in `scheduleReconnect`.
unfoldable pub on_wifi_event : ℕ → ℕ → Event → Router → Router × List Effect
unfolding lose_link
on_wifi_event now schedule_now sta_connected r =
    (record r { attempt_associated = true }, log sta_associated ∷ [])
on_wifi_event now schedule_now (sta_have_ip ip gateway dns channel) r = (
  record r {
    uplink_ready = true;
    backoff_ms = backoff_initial_ms;
    reconnect_pending = false;
    attempt_active = false;
  },
  log sta_got_ip ∷ log (sta_addresses ip gateway dns channel) ∷ [],
)
on_wifi_event now schedule_now sta_disconnected r = lose_link now schedule_now r
on_wifi_event now schedule_now sta_lost_ip r = lose_link now schedule_now r
on_wifi_event now schedule_now ap_sta_connected r =
    (record r { last_ap_assoc_ms = now; lease_seen = false }, log printer_associated ∷ [])
on_wifi_event now schedule_now (ap_sta_ip_assigned ip) r =
    (record r { client_ip = ip; lease_seen = true }, log (lease_issued ip) ∷ [])
on_wifi_event now schedule_now (ap_sta_disconnected stations) r = (
  if stations == 0
      then record r { lease_seen = false; last_ap_assoc_ms = 0; client_ip = unset }
      else r,
  log printer_left ∷ [],
)
on_wifi_event now schedule_now other r = (r, [])
