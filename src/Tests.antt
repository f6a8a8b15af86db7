-- ===== src/Tests.antt =====
-- Runs of the model at concrete inputs, and the theorems at inputs where their hypotheses hold.
mod Logs
mod Lines
mod Supervisor
mod Probes
mod Flash
mod Network
mod Uplinks
mod Form
mod Snapshot
mod Admin
mod Lives
mod Markup
mod Debug
