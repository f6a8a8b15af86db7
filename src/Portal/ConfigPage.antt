-- ===== src/Portal/ConfigPage.antt =====
-- The settings page of src/web/portal.cpp as it is sent: `kv`, `appendConfigForm` and `sendConfig`.
use spool_gate.Base.{
  Bool, Option, none, some, List, [], ◌∷◌, ◌++◌, Text, String, decimal, if◌then◌else◌, ◌≡◌, length,
  ap,
}
use spool_gate.Config.{Settings, AddressText}
use spool_gate.Portal.{
  FormError, uplink_ssid_empty, ap_ssid_empty, admin_user_empty, ap_ip_invalid, dns_invalid,
  ap_pass_short, eap_username_empty,
}
use spool_gate.Portal.Escape.{html_escape}
use spool_gate.Portal.Markup.{Piece, markup, value, page_head, page_foot, page_text}
use spool_gate.Portal.Page.{Row, Status, append_status, page-secrets}

unfoldable pub class_pieces : Option String → List Piece
class_pieces none = []
class_pieces (some class) = markup " class=" ∷ markup class ∷ []

-- One row; its value is escaped already.
unfoldable pub kv_pieces : Row → List Piece
unfolding class_pieces
kv_pieces r =
    markup "<div class=kv><span>"
    ∷ markup r.name
    ∷ markup "</span><b"
    ∷ (class_pieces r.class ++ (markup ">" ∷ value r.value ∷ markup "</b></div>" ∷ []))

unfoldable pub rows_pieces : List Row → List Piece
rows_pieces [] = []
rows_pieces (r ∷ rs) = kv_pieces r ++ rows_pieces rs

-- The complaints of `handleSave`.
unfoldable pub error_text : FormError → String
error_text uplink_ssid_empty = "Upstream SSID cannot be empty."
error_text ap_ssid_empty = "Downstream SSID cannot be empty."
error_text admin_user_empty = "Admin username cannot be empty."
error_text ap_ip_invalid = "AP IP address is not a valid IPv4 address."
error_text dns_invalid = "DNS address is not a valid IPv4 address."
error_text ap_pass_short = "Downstream password must be at least 8 characters."
error_text eap_username_empty = "802.1X username cannot be empty."

unfoldable pub error_pieces : Option FormError → List Piece
error_pieces none = []
error_pieces (some e) =
    markup "<div class='msg err'>" ∷ markup (error_text e) ∷ markup "</div>" ∷ []

unfoldable pub security_options : Bool → Piece
security_options enterprise =
    if enterprise
    then markup
        "<option value=personal>WPA2-Personal</option><option value=ent selected>WPA2-Enterprise (802.1X)</option>"
    else markup
        "<option value=personal selected>WPA2-Personal</option><option value=ent>WPA2-Enterprise (802.1X)</option>"

unfoldable pub tab_pieces : List Piece
tab_pieces =
    markup "<div class=tabs>"
    ∷ markup
        "<button type=button class='tab active' data-t=net onclick=\"showTab('net')\">Network</button>"
    ∷ markup "<button type=button class=tab data-t=led onclick=\"showTab('led')\">LED</button>"
    ∷ markup "<button type=button class=tab data-t=adm onclick=\"showTab('adm')\">Admin</button>"
    ∷ markup "</div>"
    ∷ markup "<form method=post action=/save>"
    ∷ []

unfoldable pub uplink_pieces : Settings → List Piece
unfolding security_options
uplink_pieces s =
    markup "<div class=pane id=pane-net>"
    ∷ markup "<h2>Upstream Wi-Fi (STA)</h2>"
    ∷ markup "<label>SSID</label><input name=uSsid value='"
    ∷ value (html_escape s.uplink_ssid)
    ∷ markup "'>"
    ∷ markup "<label>Security</label><select name=uAuth id=uAuth onchange=\"tog()\">"
    ∷ security_options s.uplink_enterprise
    ∷ markup "</select>"
    ∷ markup
        "<div id=personalBox><label>Password</label><input name=uPass type=password placeholder='(unchanged)'></div>"
    ∷ markup "<div id=entBox><label>Identity</label><input name=eapId value='"
    ∷ value (html_escape s.eap_identity)
    ∷ markup "'><label>Username</label><input name=eapUser value='"
    ∷ value (html_escape s.eap_username)
    ∷ markup
        "'><label>Password</label><input name=eapPass type=password placeholder='(unchanged)'></div>"
    ∷ []

unfoldable pub ap_pieces : AddressText → Settings → List Piece
ap_pieces ips s =
    markup "<h2>Downstream Wi-Fi (SoftAP)</h2>"
    ∷ markup "<label>SSID</label><input name=apSsid value='"
    ∷ value (html_escape s.ap_ssid)
    ∷ markup "'><label>Password</label><input name=apPass type=password placeholder='(unchanged)'>"
    ∷ markup "<p class=hint>Minimum 8 characters. Leave blank to keep the current password.</p>"
    ∷ markup "<h2>Network</h2>"
    ∷ markup "<div class=row><div><label>AP IP address</label><input name=apIp value='"
    ∷ value (ips.to_string s.ap_ip)
    ∷ markup "'></div><div><label>DNS for clients</label><input name=dns value='"
    ∷ value (ips.to_string s.dns)
    ∷ markup
        "'></div></div><p class=hint>Clients get a /24 on the AP IP; DNS is handed out via DHCP.</p>"
    ∷ markup "</div>"
    ∷ []

unfoldable pub led_pieces : Settings → List Piece
led_pieces s =
    markup "<div class=pane id=pane-led>"
    ∷ markup "<h2>Status LED</h2>"
    ∷ markup "<label>Brightness</label>"
    ∷ markup "<input type=range name=ledBri min=0 max=255 value='"
    ∷ value (decimal s.led_brightness)
    ∷ markup "' oninput=\"document.getElementById('briVal').textContent="
    ∷ markup "(this.value==0?'Off':Math.round(this.value/255*100)+'%')\">"
    ∷ markup
        "<p class=hint>Level: <span id=briVal class=big></span> &nbsp; 0 turns the LED off entirely.</p>"
    ∷ markup
        "<p class=hint>Colours: red = upstream down, amber = up/no client, blue = client connected.</p>"
    ∷ markup "</div>"
    ∷ []

unfoldable pub admin_pieces : Settings → List Piece
admin_pieces s =
    markup "<div class=pane id=pane-adm>"
    ∷ markup "<h2>Admin login</h2>"
    ∷ markup "<label>Username</label><input name=admUser value='"
    ∷ value (html_escape s.admin_user)
    ∷ markup
        "'><label>New password</label><input name=admPass type=password placeholder='(unchanged)'>"
    ∷ markup "</div>"
    ∷ markup "<button type=submit>Save &amp; reboot</button></form>"
    ∷ markup "<a href=/log><button class=alt type=button>View log</button></a>"
    ∷ markup "<a href=/speed><button class=alt type=button>Speed test</button></a>"
    ∷ markup
        "<form method=post action=/logout><button class=alt type=submit>Sign out</button></form>"
    ∷ []

unfoldable pub config_script : List Piece
config_script =
    markup "<script>"
    ∷ markup "function tog(){var e=document.getElementById('uAuth').value=='ent';"
    ∷ markup "document.getElementById('entBox').style.display=e?'block':'none';"
    ∷ markup "document.getElementById('personalBox').style.display=e?'none':'block';}"
    ∷ markup "function showTab(t){var ps=document.querySelectorAll('.pane');"
    ∷ markup "for(var i=0;i<ps.length;i++)ps[i].style.display='none';"
    ∷ markup "document.getElementById('pane-'+t).style.display='block';"
    ∷ markup "var bs=document.querySelectorAll('.tab');"
    ∷ markup "for(var j=0;j<bs.length;j++)bs[j].classList.toggle('active',bs[j].dataset.t==t);}"
    ∷ markup "tog();showTab('net');"
    ∷ markup "document.getElementById('briVal').textContent="
    ∷ markup "(document.getElementsByName('ledBri')[0].value==0?'Off':"
    ∷ markup "Math.round(document.getElementsByName('ledBri')[0].value/255*100)+'%');"
    ∷ markup "</script>"
    ∷ []

-- `appendConfigForm` without a message.
unfoldable pub form_pieces : AddressText → Settings → List Piece
form_pieces ips s =
    tab_pieces
    ++ (uplink_pieces s ++ (ap_pieces ips s ++ (led_pieces s ++ (admin_pieces s ++ config_script))))

-- `sendConfig`
unfoldable pub config_pieces : AddressText → Status → Settings → Option FormError → List Piece
config_pieces ips st s e =
    page_head " Settings"
    ++ (markup "<h1>SpoolGate</h1><p class=sub>Settings</p>"
        ∷ (error_pieces e
            ++ (markup "<h2>Current state</h2>"
                ∷ (rows_pieces (append_status ips st s) ++ (form_pieces ips s ++ page_foot)))))

-- The settings page as it is sent shows of the four stored passwords at most how long the two of the
-- uplink are: any others of these lengths, and any passwords of the access point and of the operator,
-- give the same page, byte for byte.
pub page_text-secrets :
    (ips : AddressText) (st : Status) (s : Settings) (e : Option FormError)
    (psk eap ap_pass admin_pass : Text)
    → length psk ≡ length s.uplink_pass
    → length eap ≡ length s.eap_password
    → let s' = record s {
      uplink_pass = psk;
      eap_password = eap;
      ap_pass = ap_pass;
      admin_pass = admin_pass;
    } in
      page_text (config_pieces ips st s' e) ≡ page_text (config_pieces ips st s e)
unfolding config_pieces form_pieces uplink_pieces ap_pieces led_pieces admin_pieces
page_text-secrets ips st s e psk eap ap_pass admin_pass p q =
    ap
      (λ rows. page_text (
        page_head " Settings"
        ++ (markup "<h1>SpoolGate</h1><p class=sub>Settings</p>"
            ∷ (error_pieces e
                ++ (markup "<h2>Current state</h2>"
                    ∷ (rows_pieces rows ++ (form_pieces ips s ++ page_foot)))))))
      (page-secrets ips st s psk eap ap_pass admin_pass p q).0
