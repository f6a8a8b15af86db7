-- ===== src/Router/Heartbeat.antt =====
-- The line of the heartbeat in `loop()` of src/main.cpp.
use spool_gate.Base.{◌++◌, Text, codes, take, decimal, if◌then◌else◌}
use spool_gate.Health
use spool_gate.Health.{Health}
use spool_gate.Router.{Router}

unfoldable pub health_name : Health.Result → Text
health_name Health.ok = codes "ok"
health_name Health.failed = codes "FAIL"
health_name Health.unknown = codes "?"

-- What the format and its arguments make.
unfoldable pub beat_format : Router → Health → Text
beat_format r h =
    codes "uplink="
    ++ ((if r.uplink_ready then codes "up" else codes "down")
        ++ (codes " ch="
            ++ (decimal r.radio_channel
                ++ (codes " clients="
                    ++ (decimal r.radio_stations
                        ++ (codes " napt="
                            ++ (decimal (if r.napt_enabled then 1 else 0)
                                ++ (codes " health up="
                                    ++ (health_name (Health.upstream h)
                                        ++ (codes " down="
                                            ++ health_name (Health.downstream h)))))))))))

-- The line of the heartbeat, in a buffer of 96 bytes.
unfoldable pub beat_text : Router → Health → Text
beat_text r h = take 95 (beat_format r h)
