-- ===== src/Portal/Pages.antt =====
-- The pages of src/web/portal.cpp without settings: the sign-in, the confirmation, the log and the
-- speed test.
use spool_gate.Base.{List, [], ◌∷◌, ◌++◌, Option, none, some, String}
use spool_gate.Portal.Markup.{Piece, markup, page_head, page_foot}

-- The complaint of `sendLogin`.
login_error : Option String → List Piece
login_error none = []
login_error (some message) = markup "<div class='msg err'>" ∷ markup message ∷ markup "</div>" ∷ []

unfoldable pub login_pieces : Option String → List Piece
unfolding login_error
login_pieces error =
    page_head " Sign in"
    ++ (markup "<h1>SpoolGate</h1><p class=sub>Admin sign-in</p>"
        ∷ (login_error error
            ++ (markup "<form method=post action=/login>"
                ∷ markup "<label>Username</label><input name=u autocomplete=username autofocus>"
                ∷ markup
                    "<label>Password</label><input name=p type=password autocomplete=current-password>"
                ∷ markup "<button type=submit>Sign in</button></form>"
                ∷ page_foot)))

unfoldable pub saved_pieces : List Piece
saved_pieces =
    page_head " Rebooting"
    ++ (markup "<h1>Settings saved</h1>"
        ∷ markup "<div class='msg ok'>Rebooting to apply. If you changed the SoftAP name or "
        ∷ markup "password, reconnect to the new network, then browse to the AP IP address.</div>"
        ∷ page_foot)

unfoldable pub log_script : List Piece
log_script =
    markup "<script>"
    ∷ markup "var el=document.getElementById('log'),fo=document.getElementById('follow');"
    ∷ markup "function load(){fetch('/log.txt',{cache:'no-store'}).then(function(r){"
    ∷ markup "if(!r.ok)throw 0;return r.text()}).then(function(t){"
    ∷ markup "if(t===el.textContent)return;el.textContent=t;"
    ∷ markup "if(fo.checked)el.scrollTop=el.scrollHeight;})"
    ∷ markup ".catch(function(){el.textContent+='\n[disconnected from router]';});}"
    ∷ markup "load();setInterval(function(){if(fo.checked)load();},3000);"
    ∷ markup "</script>"
    ∷ []

unfoldable pub log_pieces : List Piece
log_pieces =
    page_head " Log"
    ++ (markup "<h1>SpoolGate</h1><p class=sub>Log</p>"
        ∷ markup "<a href=/><button class=alt type=button>Back to settings</button></a>"
        ∷ markup
            "<label><input type=checkbox id=follow checked style='width:auto;margin-right:6px'>"
        ∷ markup "Auto-refresh every 3s, pinned to the newest line</label>"
        ∷ markup "<pre class=log id=log>loading...</pre>"
        ∷ (log_script ++ page_foot))

unfoldable pub speed_script : List Piece
speed_script =
    markup "<script>"
    ∷ markup "var busy=0;"
    ∷ markup "function row(k,v){return '<div class=kv><span>'+k+'</span><b>'+v+'</b></div>'}"
    ∷ markup "function stat(){"
    ∷ markup
        "fetch('/stat.json',{cache:'no-store'}).then(function(r){return r.json()}).then(function(d){"
    ∷ markup "var h='';"
    ∷ markup "h+=row('Uplink',d.uplink?'up':'down');"
    ∷ markup "h+=row('Channel',d.channel);"
    ∷ markup "h+=row('Uplink signal',d.sta_rssi+' dBm');"
    ∷ markup "h+=row('Clients joined',d.clients);"
    ∷ markup "h+=row('Client signal',d.client_rssi?d.client_rssi+' dBm':'n/a');"
    ∷ markup "h+=row('NAPT',d.napt?'on':'off');"
    ∷ markup "h+=row('Gateway reachable',d.health_up);"
    ∷ markup "h+=row('Client reachable',d.health_down);"
    ∷ markup "h+=row('Free heap',Math.round(d.heap_free/1024)+' KiB');"
    ∷ markup "h+=row('Min free heap since boot',Math.round(d.heap_min/1024)+' KiB');"
    ∷ markup "h+=row('Largest free block',Math.round(d.heap_largest_block/1024)+' KiB');"
    ∷ markup
        "h+=row('Last run, router side',d.aplink_ms?(d.aplink_bytes/125/d.aplink_ms).toFixed(2)+' Mbit/s':'none yet');"
    ∷ markup "document.getElementById('stat').innerHTML=h;"
    ∷ markup "}).catch(function(){document.getElementById('stat').textContent='unreachable'})}"
    ∷ markup "function run(mb){"
    ∷ markup "if(busy){return}busy=1;"
    ∷ markup "var out=document.getElementById('res');"
    ∷ markup "out.textContent='running '+mb+' MiB\\u2026';"
    ∷ markup "var t0=0,got=0;"
    ∷ markup "fetch('/speed/down?mb='+mb+'&t='+Date.now(),{cache:'no-store'}).then(function(r){"
    ∷ markup "if(!r.ok){throw new Error('HTTP '+r.status)}"
    ∷ markup "var rd=r.body.getReader();"
    ∷ markup "function pump(){return rd.read().then(function(c){"
    ∷ markup "if(c.done){return}"
    ∷ markup "if(!t0){t0=performance.now()}"
    ∷ markup "got+=c.value.length;"
    ∷ markup "var s=(performance.now()-t0)/1000;"
    ∷ markup "if(s>0.3){out.textContent=(got/125000/s).toFixed(2)+' Mbit/s'}"
    ∷ markup "return pump()})}"
    ∷ markup "return pump()}).then(function(){"
    ∷ markup "var s=(performance.now()-t0)/1000;"
    ∷ markup "out.textContent=(got/125000/s).toFixed(2)+' Mbit/s \\u2014 '+(got/1048576).toFixed(1)"
    ∷ markup "+' MiB in '+s.toFixed(1)+' s';"
    ∷ markup "}).catch(function(e){out.textContent='failed: '+e.message})"
    ∷ markup ".then(function(){busy=0;stat()})}"
    ∷ markup "stat();"
    ∷ markup "</script>"
    ∷ []

unfoldable pub speed_pieces : List Piece
speed_pieces =
    page_head " Speed test"
    ++ (markup "<h1>SpoolGate</h1><p class=sub>Downstream link speed test</p>"
        ∷ markup "<a href=/><button class=alt type=button>Back to settings</button></a>"
        ∷ markup "<div class=tabs>"
        ∷ markup "<button type=button class=tab onclick=\"run(4)\">4 MiB</button>"
        ∷ markup "<button type=button class=tab onclick=\"run(16)\">16 MiB</button>"
        ∷ markup "<button type=button class=tab onclick=\"run(64)\">64 MiB</button>"
        ∷ markup "</div>"
        ∷ markup "<p class=big id=res>idle</p>"
        ∷ markup "<p class=hint>One hop only: this router's radio to the device you are "
        ∷ markup "reading this on. It is the ceiling for the downstream Wi-Fi link, not the "
        ∷ markup "speed of NAT-routed traffic &mdash; a forwarded packet crosses the same "
        ∷ markup "radio twice, so routed traffic gets at best about half of this. For the "
        ∷ markup "end-to-end figure run <code>tools/speedtest.ps1</code> from a laptop "
        ∷ markup "joined to this network.</p>"
        ∷ markup "<h2>Router state</h2><div id=stat>loading&hellip;</div>"
        ∷ markup "<p class=hint>Min free heap is a low-water mark since boot, so it only "
        ∷ markup "ever falls. If a run drives it down sharply, the Wi-Fi driver is running "
        ∷ markup "out of transmit buffers &mdash; that is a throughput ceiling no amount of "
        ∷ markup "signal will lift.</p>"
        ∷ (speed_script ++ page_foot))
