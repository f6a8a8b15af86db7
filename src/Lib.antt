-- ===== src/Lib.antt =====
-- SpoolGate: an ESP32 firmware that joins an upstream Wi-Fi network as a station and routes one or
-- more printers behind a Wi-Fi access point of its own (SoftAP) through NAT (NAPT).
--
-- The parts, and how they meet:
--   * src/main.cpp starts everything in `setup()`, handles the Wi-Fi events, and runs `loop()`, which
--     feeds the supervisor, serves the portal, samples the radio, reconciles NAPT, probes both links,
--     recovers from a dead one, drives the LED and bounds and retries the uplink's attempts.
--   * src/net/uplink.cpp begins an attempt, src/net/softap.cpp brings up the access point and its DHCP
--     server, src/net/napt.cpp is the NAPT switch, src/net/health.cpp runs the ping sessions.
--   * src/watchdog.cpp is a task on the other core that reboots the board if loop() stalls or the uplink
--     stays down; src/statusled.cpp shows the state of the router by colour.
--   * src/config.cpp keeps the settings in flash; src/web/portal.cpp lets the operator edit them in a
--     browser; src/logbuf.cpp keeps the newest log lines, which the portal shows.
--
-- The files, with the code each is about:
--   * Base: names of the libraries passed on; lists, C integers, text as bytes, IPv4 addresses.
--   * Logbuf: src/logbuf.cpp. `store`, `printf`, `hook_vprintf`, `render` are the functions of those
--     names over a ring of 96 rows of 128 bytes. Clean, Rows, Window, Ring, History, Concurrent, Print
--     hold its theorems; Concurrent also has the `render` that other tasks interrupt.
--   * Watchdog: src/watchdog.cpp. `check` is the body of the supervisor's round, `poll` the round alone,
--     `poll_under` the round with calls of `update` between its reads. Stall compares it with true time,
--     Race with writes that fall into its gaps; Lines is the text of what is logged.
--   * StatusLed: src/statusled.cpp. Colours is about what is shown, Cache about the cached word.
--   * Health: src/net/health.cpp. An asynchronous session is its opening, its callbacks (`on_ping_success`,
--     `on_ping_end`) and its `harvest`, as steps in any order. Lines is the text of what is logged;
--     Sessions, Ledger, Streak and Rounds hold the theorems.
--   * Config: src/config.cpp. Nvs is the interface of the flash store; Flash and Reboot are about what is
--     stored and read back.
--   * Net: Softap, Uplink, Napt for the three files of src/net; a function returns the list of the calls
--     that it makes, AttemptLog and Lines have the text that is logged; `Driver` and `Server` are the
--     interfaces of the driver and of the DHCP server that take these calls.
--   * Router: src/main.cpp. Events is `onWiFiEvent`, Loop is `setup` and `loop` phase by phase, Heartbeat
--     and Lines the text of what is logged; Link, Backoff, Forwarding, Timeouts, Recovery and Fit hold
--     the theorems.
--     `Router` is the record of the file's globals, the statics of `loop()` and the NAPT flag; `System`
--     adds the other parts.
--   * Portal: src/web/portal.cpp. Access is the session and the guard, Form is `handleSave`, Handlers the
--     other routes and their table, Speed the throughput test, Escape `htmlEscape`, Page the rows
--     and inputs of the settings page, Markup, Pages and ConfigPage the pages piece by piece, Render
--     what is sent for a response and Wire its header fields, StatJson the text of /stat.json. Json,
--     Structure and Reader are readers of such objects, of the tags of a page and of the inputs among
--     them, and with the browser's cookie in Wire they do not come from the code. Gate, Cookie,
--     Session, Save, Persist, Resubmit, Signal, TameRows, Tame, Parts, FormText, SentBack, Injection and
--     Disclosure hold theorems.
--   * Board: the parts of src/main.cpp composed with the portal, the flash and the supervisor, over any
--     number of boots. `pass` is one `loop()` with its request, `power_up` is `setup()` on a flash,
--     `Moment` is all that can happen. Stored, Uplink and Restart hold the theorems.
--   * Diagnostics: what `loop()` adds under NAT_DEBUG, with the names in Names; Runs
--     and Rate are about what an iteration runs and how often.
--   * Tests: concrete runs, and each theorem with hypotheses at an input that meets them.
--
-- How the code is modelled. A global that is written is a field of a record, and a function that writes
-- it returns the new record; a call of the platform is an element of the list of effects beside it. Each
-- reading of `millis()` is an argument of its own, a number below 2^32 where that matters, and every
-- sum and difference of them wraps as `uint32_t` does. An Arduino `String` is the list of its bytes.
-- Not under src/ and therefore parameters: the flash store, the text form of addresses, the text
-- functions of `String`, the macros of secrets.h, the web server's choice of a handler and its reading of
-- argument names, how a browser reads the value of an input, and all answers of the Wi-Fi driver.
--
-- Loops: the loop of `store` and of `htmlEscape` recur on the text, that of `render` on its 96 rounds.
-- The one loop with fuel is that of the throughput test: 16385 rounds, one more than the blocks of 4096
-- bytes in 64 MiB, the most that a request can ask for.
--
-- Not modelled: what a browser makes of the scripts and the style sheet, which are text here; the log ring
-- as a part of `Board`, where it is an input of a request, and `count` and `begin` of it, which read a
-- field and install the hook; a flash that is full; tools/speedtest.ps1, a client.
pub mod Base
pub mod Board
pub mod Config
pub mod Diagnostics
pub mod Health
pub mod Logbuf
pub mod Net
pub mod Portal
pub mod Router
pub mod StatusLed
pub mod Tests
pub mod Watchdog
