-- ===== src/Tests/Snapshot.antt =====
-- `/stat.json` of a router with two clients.
use spool_gate.Base.{◌≡◌, refl, some, ◌∷◌, negsuc, arith}
use spool_gate.Portal.{Portal}
use spool_gate.Portal.Json.{read_object}
use spool_gate.Portal.StatJson.{
  stat_json, InRange, client_rssi, best_of, read_object-stat_json, uptime_field, other_fields,
}
use spool_gate.Tests.Form.{vitals}
use spool_gate.Tests.Form as Form

abbrev portal : Portal
portal = record (Form.portal) { speed_bytes = 8388608; speed_ms = 4100 }

client_rssi_two : client_rssi vitals.sta_list ≡ negsuc 60
unfolding client_rssi best_of
client_rssi_two = refl

figures : InRange vitals portal
unfolding client_rssi best_of
figures = record {
  now_range = omega arith;
  channel_range = omega arith;
  rssi_range = omega arith;
  stations_range = omega arith;
  clients_range = omega arith;
  heap_range = (omega arith, omega arith);
  block_range = omega arith;
  speed_range = (omega arith, omega arith);
}

read_object-stat_json_example :
    read_object (stat_json vitals portal) ≡ some (uptime_field vitals ∷ other_fields vitals portal)
read_object-stat_json_example = read_object-stat_json vitals portal figures
