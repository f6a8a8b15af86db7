-- ===== src/Net.antt =====
-- src/net: the SoftAP, NAPT and the uplink connection (the probes of src/net/health are `Health`).
-- The Wi-Fi driver is not under src/: what a function asks of it is a list of calls, and what it
-- answers are arguments.
pub mod Softap
pub mod Napt
pub mod Uplink
pub mod AttemptLog
pub mod Lines
