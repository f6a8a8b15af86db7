-- ===== src/Net/Napt.antt =====
-- src/net/napt.h and src/net/napt.cpp: the NAPT switch. The flag is `s_enabled`.
use spool_gate.Base.{Bool, true, false, List, [], ◌∷◌, if◌then◌else◌, not}

pub data Call : Type 0 where
  enable_napt : Bool → Call

-- `ok` is what `WiFi.AP.enableNAPT(true)` returns.
unfoldable pub enable : Bool → Bool → Bool × List Call
enable ok enabled = if enabled then (enabled, []) else (ok, enable_napt true ∷ [])

unfoldable pub disable : Bool → Bool × List Call
disable enabled = if not enabled then (enabled, []) else (false, enable_napt false ∷ [])
