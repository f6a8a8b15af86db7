-- ===== src/Router/Fit.antt =====
-- The lines of src/main.cpp fit the rows of the log.
use spool_gate.Base.{
  ℕ, ◌≡◌, ◌⊎◌, inl, inr, refl, Bool, true, false, [], ◌∷◌, ◌++◌, Text, codes, decimal, stamped,
  arith, leb, if◌then◌else◌, is_empty,
}
use spool_gate.Config.{AddressText}
use spool_gate.Health.{Health}
use spool_gate.Health as Health
use spool_gate.Logbuf.{Log, newline}
use spool_gate.Logbuf.Ring.{IsValid, held, remember}
use spool_gate.Logbuf.Print.{printf_short, printf_led}
use spool_gate.Router.{
  sta_addresses, admin_portal, banner, Router, Line, sta_associated, sta_got_ip,
  napt_off_uplink_lost, printer_associated, printer_left, lease_issued, napt_on, napt_off,
  recovery_uplink, recovery_client, reconnect_scheduled, channel_moved, heartbeat,
  attempt_timed_out, attempt_failed, sta_reconnecting, sta_connecting, ap_up, ap_failed,
}
use spool_gate.Logbuf.Pieces.{
  IsPiece, is_plain_text, is_plain_text-IsPlain, append-IsPiece, is_plain_text-append,
  decimal-IsPiece, signed-IsPiece, stamped-IsPiece, literal, is_plain_text-take, take_bound,
}
use spool_gate.Router.Heartbeat.{beat_text, beat_format, health_name}
use spool_gate.Router.Lines.{dash, line_body, line_text, kept_text, printf_line}

health_word : (r : Health.Result) → is_plain_text (health_name r) ≡ true
unfolding health_name
health_word Health.ok = refl
health_word Health.failed = refl
health_word Health.unknown = refl

up_word : (b : Bool) → is_plain_text (if b then codes "up" else codes "down") ≡ true
up_word true = refl
up_word false = refl

is_plain_text-decimal : (n : ℕ) → is_plain_text (decimal n) ≡ true
is_plain_text-decimal n = (decimal-IsPiece n).plain

beat_format-plain : (r : Router) (h : Health) → is_plain_text (beat_format r h) ≡ true
unfolding beat_format
beat_format-plain r h =
    search (is_plain_text-append, is_plain_text-decimal, health_word, up_word) depth 14

-- The text of a heartbeat is a piece of its buffer.
pub beat_text-IsPiece : (r : Router) (h : Health) → IsPiece 95 (beat_text r h)
unfolding beat_text
beat_text-IsPiece r h = record {
  bound = take_bound 95 (beat_format r h);
  plain = is_plain_text-take 95 (beat_format r h) (beat_format-plain r h);
}

widen : {n : ℕ} {t : Text} → IsPiece n t → leb n 112 ≡ true → IsPiece 112 t
widen p h = record { bound = ground (arith, p.bound); plain = p.plain }

-- What the platform and the radio put into a line is of their types: an address prints as at most 15
-- plain bytes, and a heartbeat is a piece of its buffer.
unfoldable pub IsPrintable : AddressText → Line → Type 0
IsPrintable ips (lease_issued ip) = IsPiece 15 (ips.to_string ip)
IsPrintable ips (heartbeat beat rssi) = IsPiece 95 beat
IsPrintable ips (admin_portal ip) = IsPiece 15 (ips.to_string ip)
IsPrintable ips (sta_addresses ip gateway dns channel) =
    IsPiece 15 (ips.to_string ip)
    × IsPiece 15 (ips.to_string gateway)
    × IsPiece 15 (ips.to_string dns)
IsPrintable ips (banner core) = IsPiece 56 core
IsPrintable ips l = Unit

line_body-IsPiece :
    (ips : AddressText) (l : Line) → IsPrintable ips l → IsPiece 112 (line_body ips l)
unfolding line_body IsPrintable
line_body-IsPiece ips sta_associated p = literal 112 _ refl refl
line_body-IsPiece ips sta_got_ip p = literal 112 _ refl refl
line_body-IsPiece ips (sta_addresses ip gateway dns channel) p =
    widen
      (append-IsPiece 6 84 _ _ (literal 6 (codes "  IP: ") refl refl) (
        append-IsPiece 15 69 _ _ p.0 (
          append-IsPiece 11 58 _ _ (literal 11 (codes "  Gateway: ") refl refl) (
            append-IsPiece 15 43 _ _ p.1 (
              append-IsPiece 7 36 _ _ (literal 7 (codes "  DNS: ") refl refl) (
                append-IsPiece 15 21 _ _ p.2 (
                  append-IsPiece 11 10 _ _ (literal 11 (codes "  channel: ") refl refl)
                    (decimal-IsPiece channel))))))))
      refl
line_body-IsPiece ips (admin_portal ip) p =
    widen
      (append-IsPiece 23 16 _ _ (literal 23 (codes "Admin portal at http://") refl refl)
        (append-IsPiece 15 1 _ _ p (literal 1 (codes "/") refl refl)))
      refl
line_body-IsPiece ips (banner core) p =
    widen
      (append-IsPiece 56 56 _ _
        (literal 56
          (codes "SpoolGate"
            ++ (dash ++ (codes "ESP32 NAT router" ++ (dash ++ codes "arduino-esp32 core "))))
          refl refl)
        p)
      refl
line_body-IsPiece ips napt_off_uplink_lost p = literal 112 _ refl refl
line_body-IsPiece ips printer_associated p = literal 112 _ refl refl
line_body-IsPiece ips printer_left p = literal 112 _ refl refl
line_body-IsPiece ips (lease_issued ip) p =
    widen (append-IsPiece 19 15 _ _ (literal 19 (codes "DHCP lease issued: ") refl refl) p) refl
line_body-IsPiece ips napt_on p = literal 112 _ refl refl
line_body-IsPiece ips napt_off p = literal 112 _ refl refl
line_body-IsPiece ips recovery_uplink p = literal 112 _ refl refl
line_body-IsPiece ips recovery_client p = literal 112 _ refl refl
line_body-IsPiece ips (reconnect_scheduled n) p =
    widen
      (append-IsPiece 27 13 _ _ (literal 27 (codes "STA reconnect scheduled in ") refl refl)
        (append-IsPiece 10 3 _ _ (decimal-IsPiece n) (literal 3 (codes " ms") refl refl)))
      refl
line_body-IsPiece ips (channel_moved last channel) p =
    widen
      (append-IsPiece 21 55 _ _ (literal 21 (codes "SoftAP channel moved ") refl refl) (
        append-IsPiece 10 45 _ _ (decimal-IsPiece last) (
          append-IsPiece 4 41 _ _ (literal 4 (codes " -> ") refl refl) (
            append-IsPiece 10 31 _ _ (decimal-IsPiece channel)
              (literal 31 (codes " (clients must re-associate)") refl refl)))))
      refl
line_body-IsPiece ips (heartbeat beat rssi) p =
    widen
      (append-IsPiece 95 17 _ _ p
        (append-IsPiece 6 11 _ _ (literal 6 (codes " rssi=") refl refl) (signed-IsPiece rssi)))
      refl
line_body-IsPiece ips attempt_timed_out p = literal 112 _ refl refl
line_body-IsPiece ips attempt_failed p = literal 112 _ refl refl
line_body-IsPiece ips sta_reconnecting p = literal 112 _ refl refl
line_body-IsPiece ips sta_connecting p = literal 112 _ refl refl
line_body-IsPiece ips ap_up p = literal 112 _ refl refl
line_body-IsPiece ips ap_failed p = literal 112 _ refl refl

kept_text-IsPiece :
    (ips : AddressText) (now : ℕ) (l : Line) → IsPrintable ips l → IsPiece 125 (kept_text ips now l)
unfolding kept_text line_text
kept_text-IsPiece ips now (sta_addresses ip gateway dns channel) p =
    let piece = line_body-IsPiece ips (sta_addresses ip gateway dns channel) p in
    record { bound = omega (arith, piece.bound); plain = piece.plain }
kept_text-IsPiece ips now (banner core) p =
    let piece = line_body-IsPiece ips (banner core) p in
    record { bound = omega (arith, piece.bound); plain = piece.plain }
kept_text-IsPiece ips now l p =
    append-IsPiece 13 112 (stamped now) (line_body ips l) (stamped-IsPiece now)
      (line_body-IsPiece ips l p)

kept_text-ne : (ips : AddressText) (now : ℕ) (l : Line) → is_empty (kept_text ips now l) ≡ false
unfolding kept_text line_text line_body stamped
kept_text-ne ips now (sta_addresses ip gateway dns channel) = refl
kept_text-ne ips now (banner core) = refl
kept_text-ne ips now l = refl

-- How a line goes out: itself, behind a newline for the banner.
line_text-kept_text :
    (ips : AddressText) (now : ℕ) (l : Line)
    → (line_text ips now l ≡ kept_text ips now l)
      ⊎ (line_text ips now l ≡ newline ∷ kept_text ips now l)
unfolding kept_text line_text
line_text-kept_text ips now (banner core) = inr refl
line_text-kept_text ips now l = inl refl

-- No line that src/main.cpp logs in the production build itself is cut: with a well-formed ring, each of
-- them goes to the serial port whole with its newlines, and is remembered as one row without them,
-- provided that every address in it prints as at most 15 plain bytes, a heartbeat is at most 95 of them,
-- and the version of the core at most 56.
pub printf_line_lem :
    (ips : AddressText) (now : ℕ) (l : Line) (log : Log)
    → IsPrintable ips l
    → IsValid log
    → let (serial, log') = printf_line ips now l log in
      (serial ≡ line_text ips now l ++ newline ∷ [])
      × (held log' ≡ remember (kept_text ips now l) (held log))
unfolding printf_line
printf_line_lem ips now l log p v =
    let piece = kept_text-IsPiece ips now l p in
    let plain = is_plain_text-IsPlain (kept_text ips now l) piece.plain in
    elim (line_text-kept_text ips now l) [
      | inl bare ↦ rw bare (
          printf_short (kept_text ips now l) log v plain (kept_text-ne ips now l)
            (omega (arith, piece.bound)))
      | inr led ↦ rw led (
          printf_led (kept_text ips now l) log v plain (kept_text-ne ips now l)
            (omega (arith, piece.bound)))
    ]
