-- ===== src/Router/Lines.antt =====
-- The lines that src/main.cpp logs, as text: `logLine` and the formats of its calls of `printf`. The
-- newline at the end is left to `printf_line`.
use spool_gate.Base.{ℕ, [], ◌∷◌, ◌++◌, Text, codes, decimal, signed_decimal, stamped}
use spool_gate.Config.{AddressText}
use spool_gate.Logbuf.{Log, newline, printf}
use spool_gate.Router.{
  Line, sta_associated, sta_got_ip, sta_addresses, admin_portal, napt_off_uplink_lost,
  printer_associated, printer_left, lease_issued, napt_on, napt_off, recovery_uplink,
  recovery_client, reconnect_scheduled, banner, channel_moved, heartbeat, attempt_timed_out,
  attempt_failed, sta_reconnecting, sta_connecting, ap_up, ap_failed,
}

-- An em dash in UTF-8, between spaces.
abbrev pub dash : Text
dash = 32 ∷ 0xe2 ∷ 0x80 ∷ 0x94 ∷ 32 ∷ []

unfoldable pub line_body : AddressText → Line → Text
line_body ips sta_associated = codes "STA associated with uplink AP"
line_body ips sta_got_ip = codes "STA got IP"
line_body ips (sta_addresses ip gateway dns channel) =
    codes "  IP: "
    ++ (ips.to_string ip
        ++ (codes "  Gateway: "
            ++ (ips.to_string gateway
                ++ (codes "  DNS: "
                    ++ (ips.to_string dns ++ (codes "  channel: " ++ decimal channel))))))
line_body ips napt_off_uplink_lost = codes "NAPT OFF (uplink lost)"
line_body ips printer_associated = codes "Printer associated with SoftAP"
line_body ips printer_left = codes "Printer left SoftAP"
line_body ips (lease_issued ip) = codes "DHCP lease issued: " ++ ips.to_string ip
line_body ips napt_on = codes "NAPT ON"
line_body ips napt_off = codes "NAPT OFF"
line_body ips recovery_uplink =
    codes "RECOVERY: uplink holds an IP but is unreachable" ++ (dash ++ codes "reconnecting")
line_body ips recovery_client =
    codes "RECOVERY: client unreachable" ++ (dash ++ codes "deauthing to force re-association")
line_body ips (reconnect_scheduled n) =
    codes "STA reconnect scheduled in " ++ (decimal n ++ codes " ms")
line_body ips (channel_moved last channel) =
    codes "SoftAP channel moved "
    ++ (decimal last ++ (codes " -> " ++ (decimal channel ++ codes " (clients must re-associate)")))
line_body ips (heartbeat beat rssi) = beat ++ (codes " rssi=" ++ signed_decimal rssi)
line_body ips attempt_timed_out = codes "STA attempt timed out"
line_body ips attempt_failed = codes "STA attempt failed (driver out of candidates)"
line_body ips sta_reconnecting = codes "STA reconnecting"
line_body ips sta_connecting = codes "STA connecting"
line_body ips ap_up = codes "AP UP"
line_body ips (admin_portal ip) = codes "Admin portal at http://" ++ (ips.to_string ip ++ codes "/")
line_body ips (banner core) =
    codes "SpoolGate"
    ++ (dash ++ (codes "ESP32 NAT router" ++ (dash ++ (codes "arduino-esp32 core " ++ core))))
line_body ips ap_failed = codes "FATAL: SoftAP bring-up failed"

-- `now` is the reading of the clock that stamps the line; the addresses and the banner stand in lines
-- without a stamp, and the banner has a line end in front.
unfoldable pub line_text : AddressText → ℕ → Line → Text
line_text ips now (sta_addresses ip gateway dns channel) =
    line_body ips (sta_addresses ip gateway dns channel)
line_text ips now (banner core) = newline ∷ line_body ips (banner core)
line_text ips now l = stamped now ++ line_body ips l

-- The row that the log keeps of a line.
unfoldable pub kept_text : AddressText → ℕ → Line → Text
kept_text ips now (banner core) = line_body ips (banner core)
kept_text ips now l = line_text ips now l

unfoldable pub printf_line : AddressText → ℕ → Line → Log → Text × Log
printf_line ips now l log = printf (line_text ips now l ++ newline ∷ []) log
