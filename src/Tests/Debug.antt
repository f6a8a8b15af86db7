-- ===== src/Tests/Debug.antt =====
-- The diagnostics over a few iterations.
use spool_gate.Base.{ℕ, true, none, some, List, [], ◌∷◌, Address, arith, negsuc, codes}
use spool_gate.Router.{Router, initial}
use spool_gate.Diagnostics.{Report, Reading, Timers, found}
use spool_gate.Diagnostics.Names.{enterprise, started, no_ssid_avail}
use spool_gate.Diagnostics.Runs.{runs, is_scan, is_test, is_snapshot, is_station}
use spool_gate.Diagnostics.Rate.{SpacedApart, stamps, diagnose-SpacedApart}
use spool_gate.Tests.Flash.{octets}

abbrev at : ℕ → Reading
at t = record { now = t; mark = t }

abbrev access_point : Address
access_point = record { a = 192; b = 168; c = 5; d = 1 }

abbrev report : ℕ → Report
report t = record {
  scan_at = at t;
  scan_now = t;
  scan =
      found
        (record { channel = 6; rssi = negsuc 66; mode = enterprise; ssid = codes "campus" } ∷ []);
  test_at = at t;
  self_test = record {
    dns_now = t;
    resolved = access_point;
    dns_ok = true;
    tcp_now = t;
    tcp_ok = true;
  };
  ap_at = at t;
  ap = record {
    now = t;
    ap_ip = access_point;
    stations = 0;
    netif = true;
    dhcp = some started;
    dns_info = none;
    channel = 6;
    rssi = negsuc 66;
  };
  status_at = at t;
  status_now = t;
  status = no_ssid_avail;
}

abbrev reports : List (Report × Router)
reports =
    (report 1000, initial)
    ∷ (report 9000, initial)
    ∷ (report 31500, initial)
    ∷ (report 62000, initial)
    ∷ []

abbrev unset_timers : Timers
unset_timers = record { last_scan = 0; last_self_test = 0; last_ap_log = 0; last_status_log = 0 }

diagnose-SpacedApart_example :
    SpacedApart 30000 (stamps octets (runs octets is_scan) (λ d. d.scan_at) reports unset_timers)
    × SpacedApart 30000 (stamps octets (runs octets is_test) (λ d. d.test_at) reports unset_timers)
    × SpacedApart 5000 (stamps octets (runs octets is_snapshot) (λ d. d.ap_at) reports unset_timers)
    × SpacedApart 3000
        (stamps octets (runs octets is_station) (λ d. d.status_at) reports unset_timers)
diagnose-SpacedApart_example =
    diagnose-SpacedApart octets reports unset_timers (omega arith) (omega arith) (omega arith)
      (omega arith)
