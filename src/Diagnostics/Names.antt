-- ===== src/Diagnostics/Names.antt =====
-- The names under NAT_DEBUG: `wlStatusName` and `authName` of src/main.cpp, `dnsOffered` and
-- `dhcpsStatusName` of src/net/softap.cpp. What the driver reports is an argument.
use spool_gate.Base.{
  Bool, true, false, not, Option, none, some, String, Address, unset, if◌then◌else◌,
}

-- `wl_status_t`; `other` is what the `default` label takes.
pub data WlStatus : Type 0 where
  idle no_ssid_avail scan_completed connected connect_failed connection_lost disconnected other :
      WlStatus

unfoldable pub wl_status_name : WlStatus → String
wl_status_name idle = "WL_IDLE_STATUS"
wl_status_name no_ssid_avail = "WL_NO_SSID_AVAIL"
wl_status_name scan_completed = "WL_SCAN_COMPLETED"
wl_status_name connected = "WL_CONNECTED"
wl_status_name connect_failed = "WL_CONNECT_FAILED"
wl_status_name connection_lost = "WL_CONNECTION_LOST"
wl_status_name disconnected = "WL_DISCONNECTED"
wl_status_name other = "UNKNOWN"

-- `wifi_auth_mode_t`
pub data AuthMode : Type 0 where
  open_network wep wpa_psk wpa2_psk wpa_wpa2_psk enterprise wpa3_psk wpa2_wpa3_psk other_mode :
      AuthMode

unfoldable pub auth_name : AuthMode → String
auth_name open_network = "OPEN"
auth_name wep = "WEP"
auth_name wpa_psk = "WPA-PSK"
auth_name wpa2_psk = "WPA2-PSK"
auth_name wpa_wpa2_psk = "WPA/WPA2-PSK"
auth_name enterprise = "WPA2-ENTERPRISE"
auth_name wpa3_psk = "WPA3-PSK"
auth_name wpa2_wpa3_psk = "WPA2/WPA3-PSK"
auth_name other_mode = "OTHER"

-- `esp_netif_dhcp_status_t`
pub data DhcpStatus : Type 0 where
  started stopped init other_status : DhcpStatus

-- `netif` says whether the interface is there; the status is `none` if the query fails.
unfoldable pub dhcps_status_name : Bool → Option DhcpStatus → String
dhcps_status_name false status = "NO_NETIF"
dhcps_status_name true none = "QUERY_FAILED"
dhcps_status_name true (some started) = "STARTED"
dhcps_status_name true (some stopped) = "STOPPED"
dhcps_status_name true (some init) = "INIT"
dhcps_status_name true (some other_status) = "UNKNOWN"

unfoldable pub dns_offered : Bool → Option Address → Address
dns_offered netif info = if not netif then unset else elim info [ none ↦ unset | some ip ↦ ip ]
