-- ===== src/Diagnostics.antt =====
-- What src/main.cpp does in `loop()` in a build with NAT_DEBUG 1: the scan, the self-test and the two
-- periodic lines, each behind a timer of its own. The radio, the resolver and the socket are not under
-- src/: what they answer is an argument, and the calls of them are effects.
pub mod Names
pub mod Runs
pub mod Rate
use spool_gate.Base.{
  ℕ, ◌+◌, ◌-◌, ◌<◌, ℤ, pos, negsuc, Bool, true, false, not, ◌&&◌, ◌||◌, Option, none, some, List,
  [], ◌∷◌, ◌++◌, map, Text, codes, ltb, ◌==◌, if◌then◌else◌, sub32, Address, decimal,
  signed_decimal, stamped, length, replicate,
}
use spool_gate.Config.{AddressText}
use spool_gate.Router.{Router}
use spool_gate.Diagnostics.Names.{
  WlStatus, wl_status_name, AuthMode, auth_name, DhcpStatus, dhcps_status_name, dns_offered,
}

abbrev pub scan_every_ms : ℕ
scan_every_ms = 30000

abbrev pub ap_log_every_ms : ℕ
ap_log_every_ms = 5000

abbrev pub status_log_every_ms : ℕ
status_log_every_ms = 3000

-- `%-<width>s` and `%<width>s`
abbrev left_justified : ℕ → Text → Text
left_justified width t = t ++ replicate (width - length t) 32

abbrev right_justified : ℕ → Text → Text
right_justified width t = replicate (width - length t) 32 ++ t

abbrev flag_text : Bool → Text
flag_text b = if b then codes "1" else codes "0"

-- One network of a scan.
pub record Network : Type 0 where
  pub channel : ℕ
  pub rssi : ℤ
  pub mode : AuthMode
  pub ssid : Text

-- What `scanNetworks` returns: an error code, which is negative, or the networks.
pub data Scan : Type 0 where
  failed : ℕ → Scan  -- -(n + 1)
  found : List Network → Scan

pub data Note : Type 0 where
  scan_networks scan_delete resolve connect_out : Note
  line : Text → Note
  snapshot station : Text → Note  -- the lines of the two periodic reports

unfoldable pub no_networks : ℕ → ℤ → Note
no_networks now n =
    line (stamped now ++ (codes "scan: no networks visible (" ++ (signed_decimal n ++ codes ")\n")))

unfoldable pub network_line : Network → Note
network_line w = line (
    codes "   ch"
    ++ (left_justified 3 (decimal w.channel)
        ++ (codes " "
            ++ (right_justified 4 (signed_decimal w.rssi)
                ++ (codes " dBm  "
                    ++ (left_justified 16 (codes (auth_name w.mode))
                        ++ (codes " \"" ++ (w.ssid ++ codes "\"\n"))))))))

unfoldable pub scan_lines : ℕ → Scan → List Note
unfolding no_networks network_line
scan_lines now (failed n) = no_networks now (negsuc n) ∷ []
scan_lines now (found []) = no_networks now (pos 0) ∷ []
scan_lines now (found (w ∷ ws)) =
    line (
      stamped now
      ++ (codes "scan: "
          ++ (decimal (length (w ∷ ws)) ++ codes " networks visible (2.4 GHz band only)\n")))
    ∷ map network_line (w ∷ ws)

unfoldable pub run_scan : ℕ → Scan → List Note
unfolding scan_lines
run_scan now scan = scan_networks ∷ (scan_lines now scan ++ scan_delete ∷ [])

-- The answers to the self-test.
pub record Selftest : Type 0 where
  pub dns_now : ℕ
  pub resolved : Address
  pub dns_ok : Bool
  pub tcp_now : ℕ
  pub tcp_ok : Bool

unfoldable pub run_uplink_self_test : AddressText → Selftest → List Note
run_uplink_self_test ips t =
    resolve
    ∷ line (
        stamped t.dns_now
        ++ (codes "selftest DNS neverssl.com -> "
            ++ (ips.to_string t.resolved
                ++ (codes " (ok=" ++ (flag_text t.dns_ok ++ codes ")\n")))))
    ∷ connect_out
    ∷ line (
        stamped t.tcp_now
        ++ (codes "selftest TCP 1.1.1.1:80 ok=" ++ (flag_text t.tcp_ok ++ codes "\n")))
    ∷ []

-- What the snapshot of the access point reads.
pub record ApReport : Type 0 where
  pub now : ℕ
  pub ap_ip : Address
  pub stations : ℕ
  pub netif : Bool
  pub dhcp : Option DhcpStatus
  pub dns_info : Option Address
  pub channel : ℕ
  pub rssi : ℤ

unfoldable pub ap_line : AddressText → ApReport → Router → Note
ap_line ips a r = snapshot (
    stamped a.now
    ++ (codes "AP IP: "
        ++ (ips.to_string a.ap_ip
            ++ (codes "  Stations: "
                ++ (decimal a.stations
                    ++ (codes "  DHCPS: "
                        ++ (codes (dhcps_status_name a.netif a.dhcp)
                            ++ (codes "  DNSoffer: "
                                ++ (ips.to_string (dns_offered a.netif a.dns_info)
                                    ++ (codes "  NAPT: "
                                        ++ (flag_text r.napt_enabled
                                            ++ (codes "  ch: "
                                                ++ (decimal a.channel
                                                    ++ (codes "  STA rssi: "
                                                        ++ (signed_decimal a.rssi
                                                            ++ codes "\n")))))))))))))))

unfoldable pub status_line : ℕ → WlStatus → Note
status_line now s =
    station (stamped now ++ (codes "STA status: " ++ (codes (wl_status_name s) ++ codes "\n")))

-- The four statics.
pub record Timers : Type 0 where
  pub last_scan : ℕ
  pub last_self_test : ℕ
  pub last_ap_log : ℕ
  pub last_status_log : ℕ

-- The two readings of the clock at a timer.
pub record Reading : Type 0 where
  pub now : ℕ
  pub mark : ℕ

-- What one iteration reads.
pub record Report : Type 0 where
  pub scan_at : Reading
  pub scan_now : ℕ
  pub scan : Scan
  pub test_at : Reading
  pub self_test : Selftest
  pub ap_at : Reading
  pub ap : ApReport
  pub status_at : Reading
  pub status_now : ℕ
  pub status : WlStatus

-- `last == 0 || millis() - last > every`
unfoldable pub due_or_first : ℕ → ℕ → ℕ → Bool
due_or_first every last now = last == 0 || ltb every (sub32 now last)

unfoldable pub due : ℕ → ℕ → ℕ → Bool
due every last now = ltb every (sub32 now last)

-- `if (fires) { last = millis(); ... }`
abbrev pub stamp_if : Bool → ℕ → ℕ → ℕ
stamp_if fires mark last = if fires then mark else last

abbrev pub notes_if : Bool → List Note → List Note
notes_if fires notes = if fires then notes else []

unfoldable pub scan_fires : Report → Router → Timers → Bool
scan_fires d r t = not r.uplink_ready && due_or_first scan_every_ms t.last_scan d.scan_at.now

unfoldable pub test_fires : Report → Router → Timers → Bool
test_fires d r t = r.uplink_ready && due_or_first scan_every_ms t.last_self_test d.test_at.now

unfoldable pub ap_fires : Report → Router → Timers → Bool
ap_fires d r t = due ap_log_every_ms t.last_ap_log d.ap_at.now

unfoldable pub status_fires : Report → Router → Timers → Bool
status_fires d r t = not r.napt_enabled && due status_log_every_ms t.last_status_log d.status_at.now

-- The debug part of one iteration of `loop()`, between the LED and the deadline of the attempt.
unfoldable pub diagnose : AddressText → Report → Router → Timers → Timers × List Note
diagnose ips d r t = (
  record {
    last_scan = stamp_if (scan_fires d r t) d.scan_at.mark t.last_scan;
    last_self_test = stamp_if (test_fires d r t) d.test_at.mark t.last_self_test;
    last_ap_log = stamp_if (ap_fires d r t) d.ap_at.mark t.last_ap_log;
    last_status_log = stamp_if (status_fires d r t) d.status_at.mark t.last_status_log;
  },
  notes_if (scan_fires d r t) (run_scan d.scan_now d.scan)
      ++ (notes_if (test_fires d r t) (run_uplink_self_test ips d.self_test)
          ++ (notes_if (ap_fires d r t) (ap_line ips d.ap r ∷ [])
              ++ notes_if (status_fires d r t) (status_line d.status_now d.status ∷ []))),
)
