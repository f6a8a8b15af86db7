-- ===== src/Portal/StatJson.antt =====
-- `clientRssi`, `healthJson` and `handleStatJson` of src/web/portal.cpp: the machine-readable snapshot.
-- Its text is built in the order of the code; what it is read as is stated beside it.
use spool_gate.Base.{
  ◌/◌, ◌<◌, ◌≡◌, refl, Bool, true, false, Option, none, some, List, [], ◌∷◌, ◌++◌, Text, String,
  codes, if◌then◌else◌, decimal, signed_decimal, ℤ, pos, negsuc, int_ltb, arith, All,
}
use spool_gate.Health
use spool_gate.Portal.{Portal, Vitals}
use spool_gate.Portal.Json.{
  number, boolean, quoted, Field, IsReadable, members_text, value_text, IsReadableField,
  read_object, read_object-members_text,
}

-- The loop of `clientRssi` behind the best signal so far.
unfoldable pub best_of : ℤ → List ℤ → ℤ
best_of best [] = best
best_of best (r ∷ rs) = best_of (if int_ltb best r then r else best) rs

unfoldable pub client_rssi : Option (List ℤ) → ℤ
client_rssi none = pos 0
client_rssi (some []) = pos 0
client_rssi (some (r ∷ rs)) = best_of (negsuc 126) (r ∷ rs)

unfoldable pub health_json : Health.Result → String
health_json Health.ok = "\"ok\""
health_json Health.failed = "\"fail\""
health_json Health.unknown = "\"unknown\""

abbrev bool_text : Bool → Text
bool_text b = if b then codes "true" else codes "false"

unfoldable pub uplink_json : Vitals → Text → Text
uplink_json v rest =
    codes "{\"uptime_s\":"
    ++ (decimal (v.now / 1000)
        ++ (codes ",\"uplink\":"
            ++ (bool_text v.up
                ++ (codes ",\"napt\":"
                    ++ (bool_text v.napt
                        ++ (codes ",\"channel\":"
                            ++ (decimal v.channel
                                ++ (codes ",\"sta_rssi\":"
                                    ++ (signed_decimal (if v.up then v.rssi else pos 0)
                                        ++ rest)))))))))

unfoldable pub client_json : Vitals → Text → Text
client_json v rest =
    codes ",\"clients\":"
    ++ (decimal v.stations
        ++ (codes ",\"client_rssi\":"
            ++ (signed_decimal (client_rssi v.sta_list)
                ++ (codes ",\"health_up\":"
                    ++ (codes (health_json v.health_up)
                        ++ (codes ",\"health_down\":"
                            ++ (codes (health_json v.health_down) ++ rest)))))))

unfoldable pub memory_json : Vitals → Text → Text
memory_json v rest =
    codes ",\"heap_free\":"
    ++ (decimal v.heap_free
        ++ (codes ",\"heap_min\":"
            ++ (decimal v.heap_min
                ++ (codes ",\"heap_largest_block\":" ++ (decimal v.heap_block ++ rest)))))

unfoldable pub speed_json : Portal → Text
speed_json p =
    codes ",\"aplink_bytes\":"
    ++ (decimal p.speed_bytes ++ (codes ",\"aplink_ms\":" ++ (decimal p.speed_ms ++ codes "}")))

unfoldable pub stat_json : Vitals → Portal → Text
stat_json v p = uplink_json v (client_json v (memory_json v (speed_json p)))

-- The words of a probe's result, without their quotes.
abbrev pub health_word : Health.Result → String
health_word Health.ok = "ok"
health_word Health.failed = "fail"
health_word Health.unknown = "unknown"

-- What the snapshot says, figure by figure: the first member, and the others in their order.
abbrev pub uptime_field : Vitals → Field
uptime_field v = (codes "uptime_s", number (pos (v.now / 1000)))

abbrev pub other_fields : Vitals → Portal → List Field
other_fields v p =
    (codes "uplink", boolean v.up)
    ∷ (codes "napt", boolean v.napt)
    ∷ (codes "channel", number (pos v.channel))
    ∷ (codes "sta_rssi", number (if v.up then v.rssi else pos 0))
    ∷ (codes "clients", number (pos v.stations))
    ∷ (codes "client_rssi", number (client_rssi v.sta_list))
    ∷ (codes "health_up", quoted (codes (health_word v.health_up)))
    ∷ (codes "health_down", quoted (codes (health_word v.health_down)))
    ∷ (codes "heap_free", number (pos v.heap_free))
    ∷ (codes "heap_min", number (pos v.heap_min))
    ∷ (codes "heap_largest_block", number (pos v.heap_block))
    ∷ (codes "aplink_bytes", number (pos p.speed_bytes))
    ∷ (codes "aplink_ms", number (pos p.speed_ms))
    ∷ []

-- The figures are those of 32-bit numbers.
pub record InRange (v : Vitals) (p : Portal) : Type 0 where
  pub now_range : v.now < 4294967296
  pub channel_range : v.channel < 4294967296
  pub rssi_range : IsReadable (number v.rssi)
  pub stations_range : v.stations < 4294967296
  pub clients_range : IsReadable (number (client_rssi v.sta_list))
  pub heap_range : (v.heap_free < 4294967296) × (v.heap_min < 4294967296)
  pub block_range : v.heap_block < 4294967296
  pub speed_range : (p.speed_bytes < 4294967296) × (p.speed_ms < 4294967296)

health_json_lem :
    (r : Health.Result) → codes (health_json r) ≡ value_text (quoted (codes (health_word r)))
unfolding health_json value_text
health_json_lem Health.ok = refl
health_json_lem Health.failed = refl
health_json_lem Health.unknown = refl

stat_json-members_text :
    (v : Vitals) (p : Portal)
    → stat_json v p ≡ 123 ∷ members_text (uptime_field v) (other_fields v p)
unfolding stat_json uplink_json client_json memory_json speed_json members_text value_text
    signed_decimal decimal
stat_json-members_text v p = rw (health_json_lem v.health_up, health_json_lem v.health_down) refl

word_plain : (r : Health.Result) → IsReadable (quoted (codes (health_word r)))
word_plain Health.ok = refl
word_plain Health.failed = refl
word_plain Health.unknown = refl

if_up-IsReadable :
    (b : Bool) (z : ℤ) → IsReadable (number z) → IsReadable (number (if b then z else pos 0))
if_up-IsReadable true z r = r
if_up-IsReadable false z r = omega arith

fields-IsReadable :
    (v : Vitals) (p : Portal)
    → InRange v p
    → All IsReadableField (uptime_field v ∷ other_fields v p)
fields-IsReadable v p r =
    let now = r.now_range in
    (
      (refl, omega arith),
      (
        (refl, tt),
        (
          (refl, tt),
          (
            (refl, r.channel_range),
            (
              (refl, if_up-IsReadable v.up v.rssi r.rssi_range),
              (
                (refl, r.stations_range),
                (
                  (refl, r.clients_range),
                  (
                    (refl, word_plain v.health_up),
                    (
                      (refl, word_plain v.health_down),
                      (
                        (refl, r.heap_range.0),
                        (
                          (refl, r.heap_range.1),
                          (
                            (refl, r.block_range),
                            ((refl, r.speed_range.0), ((refl, r.speed_range.1), tt)),
                          ),
                        ),
                      ),
                    ),
                  ),
                ),
              ),
            ),
          ),
        ),
      ),
    )

-- The text of the snapshot is a JSON object: with figures of at most 32 bits, a reader that knows
-- nothing of the code finds these fourteen members in this order with the values of the running system,
-- negative signals included, and nothing behind them.
pub read_object-stat_json :
    (v : Vitals) (p : Portal)
    → InRange v p
    → read_object (stat_json v p) ≡ some (uptime_field v ∷ other_fields v p)
read_object-stat_json v p r =
    rw (stat_json-members_text v p)
      (read_object-members_text (uptime_field v) (other_fields v p) (fields-IsReadable v p r))
