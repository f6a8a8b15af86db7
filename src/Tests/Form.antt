-- ===== src/Tests/Form.antt =====
-- The text functions of the web server's library and a browser that keep the laws, and the form
-- between them.
use spool_gate.Base.{
  ℕ, zero, suc, ◌+◌, ◌*◌, ◌-◌, ◌/◌, ◌%◌, ◌≡◌, ◌<◌, refl, Bool, true, false, ◌&&◌, if◌then◌else◌,
  none, some, negsuc, [], ◌∷◌, ◌++◌, codes, Text, arith, ltb, leb, is_empty, pos, decimal,
  decimal_from, Bool-cases, inl, inr, ap, ◌∙◌, List, String, All, text_eq,
}
use spool_gate.Config.{Settings}
use spool_gate.Logbuf.{blank}
use spool_gate.Health
use spool_gate.Portal.{
  Vitals, Strings, Request, Portal, Env, post, first_index, is_blank, is_trimmed, starts_blank,
  ends_blank, saved_page,
}
use spool_gate.Portal.Escape.{unescape, unescape-html_escape, unescape-plain}
use spool_gate.Portal.Form.{save_form}
use spool_gate.Portal.Page.{Status, connected}
use spool_gate.Portal.ConfigPage.{form_pieces}
use spool_gate.Portal.Markup.{page_text}
use spool_gate.Portal.Reader.{tags, inputs_of}
use spool_gate.Portal.Tame.{HasInertAddresses}
use spool_gate.Portal.Resubmit.{Browser, Passable}
use spool_gate.Portal.SentBack.{Names, form_names, sent_back, save_form-sent_back}
use spool_gate.Tests.Flash.{octets, settings, settings-HasAddresses}

abbrev pub strip_left : Text → Text
strip_left [] = []
strip_left (c ∷ t) = if is_blank c then strip_left t else c ∷ t

abbrev pub strip_right : Text → Text
strip_right [] = []
strip_right (c ∷ t) = let r = strip_right t in if is_blank c && is_empty r then [] else c ∷ r

strip_right_same : (t : Text) → ends_blank t ≡ false → strip_right t ≡ t
strip_right_same [] h = refl
strip_right_same (c ∷ []) h = ground arith
strip_right_same (c ∷ d ∷ t) h = rw (strip_right_same (d ∷ t) h) (ground arith)

strip_left_same : (t : Text) → starts_blank t ≡ false → strip_left t ≡ t
strip_left_same [] h = refl
strip_left_same (c ∷ t) h = ground arith

pub strip_same : (t : Text) → is_trimmed t ≡ true → strip_left (strip_right t) ≡ t
strip_same t h = rw (strip_right_same t (ground arith)) (strip_left_same t (ground arith))

abbrev pub number_from : ℕ → Text → ℕ
number_from n [] = n
number_from n (c ∷ t) =
    let rest = number_from (n * 10 + (c - 48)) t in if leb 48 c && leb c 57 then rest else n

abbrev all_digits : Text → Bool
all_digits [] = true
all_digits (c ∷ t) = if leb 48 c && leb c 57 then all_digits t else false

number_from-append :
    (t : Text) (n d : ℕ)
    → all_digits t ≡ true
    → d < 10
    → number_from n (t ++ (48 + d) ∷ []) ≡ number_from n t * 10 + d
number_from-append [] n d h l = ground arith
number_from-append (c ∷ t) n d h l = ground (arith, number_from-append t (n * 10 + (c - 48)) d)

all_digits-append :
    (t : Text) (d : ℕ) → all_digits t ≡ true → d < 10 → all_digits (t ++ (48 + d) ∷ []) ≡ true
all_digits-append [] d h l = ground arith
all_digits-append (c ∷ t) d h l = ground (arith, all_digits-append t d)

all_digits-decimal_from : (f n : ℕ) → all_digits (decimal_from f n) ≡ true
unfolding decimal_from
all_digits-decimal_from zero n = refl
all_digits-decimal_from (suc f) n = elim (Bool-cases (ltb n 10)) [
  | inl small ↦ rw small (all_digits-append [] n refl (ground arith))
  | inr large ↦ rw large (
      all_digits-append (decimal_from f (n / 10)) (n % 10) (all_digits-decimal_from f (n / 10))
        (omega arith))
]

number_from-decimal_from :
    (f n : ℕ)
    → number_from 0 (decimal_from f (n / 10)) ≡ n / 10
    → number_from 0 (decimal_from (suc f) n) ≡ n
unfolding decimal_from
number_from-decimal_from f n e = elim (Bool-cases (ltb n 10)) [
  | inl small ↦ rw small (number_from-append [] 0 n refl (ground arith) ∙ omega arith)
  | inr large ↦ rw large (
      number_from-append (decimal_from f (n / 10)) 0 (n % 10) (all_digits-decimal_from f (n / 10))
        (omega arith)
      ∙ ap (λ k. k * 10 + n % 10) e
      ∙ omega arith)
]

-- A number of one digit, which leaves nothing to divide.
one_digit : (f n : ℕ) → n < 10 → number_from 0 (decimal_from (suc f) n) ≡ n
unfolding decimal_from
one_digit f n l = rw ltb_small (number_from-append [] 0 n refl l ∙ omega arith)
  where
    ltb_small : ltb n 10 ≡ true
    ltb_small = ground arith

pub number_from-decimal : (n : ℕ) → n < 256 → pos (number_from 0 (decimal n)) ≡ pos n
unfolding decimal
number_from-decimal n l = ap pos (
    number_from-decimal_from 9 n
      (number_from-decimal_from 8 (n / 10) (one_digit 7 (n / 10 / 10) (omega arith))))

abbrev pub strings : Strings
strings = record {
  index_of = λ s needle. first_index needle s;
  trim = λ t. strip_left (strip_right t);
  to_int = λ t. pos (number_from 0 t);
  index_of-first_index = λ s needle. refl;
  trim_trimmed = strip_same;
  to_int-decimal = number_from-decimal;
}

abbrev browser : Browser
browser = record {
  read = unescape;
  read-html_escape = unescape-html_escape;
  read_plain = unescape-plain;
}

settings-Passable : Passable strings octets browser settings
settings-Passable = record {
  ssid = (refl, refl);
  ap_ssid = (refl, refl);
  admin = (refl, refl);
  username = refl;
  addresses = settings-HasAddresses;
  plain = (refl, refl);
  brightness = omega arith;
}

abbrev pub portal : Portal
portal = record {
  settings = settings;
  session = codes "0";
  session_expiry_ms = 901000;
  reboot_at_ms = 0;
  speed_bytes = 0;
  speed_ms = 0;
}

-- Two clients are joined; the uplink is strong.
abbrev pub vitals : Vitals
vitals = record {
  now = 5000;
  up = true;
  napt = true;
  channel = 6;
  rssi = negsuc 54;
  stations = 2;
  sta_list = some (negsuc 70 ∷ negsuc 60 ∷ []);
  health_up = Health.ok;
  health_down = Health.unknown;
  heap_free = 150000;
  heap_min = 120000;
  heap_block = 90000;
}

abbrev env : Env
env = record {
  now = 1000;
  renew_now = 1000;
  login_now = 1000;
  save_now = 1000;
  line_now = 1000;
  speed_now = 1000;
  block_now = λ k. k;
  random = λ i. i;
  memory = true;
  log = blank;
  vitals = vitals;
}

abbrev request : Request
request = record {
  remote = record { a = 10; b = 1; c = 2; d = 20 };
  method = post;
  path = "/save";
  args = [];
  cookie = none;
  connected = λ k. true;
}

-- A reader of names that knows those of the form.
abbrev find_name : List String → Text → String
find_name [] t = ""
find_name (n ∷ ns) t = let later = find_name ns t in if text_eq (codes n) t then n else later

read_form_names : All (λ n. find_name form_names (codes n) ≡ n) form_names
unfolding text_eq
read_form_names = ground arith

abbrev names : Names
names = record { read_name = find_name form_names; read_name-codes = read_form_names }

pub settings-HasInertAddresses : HasInertAddresses octets settings
settings-HasInertAddresses = ground arith

abbrev sent : Request
sent = record request {
  args =
      sent_back strings octets browser names
        (inputs_of [] (tags (page_text (form_pieces octets settings))));
}

save_form-sent_back_example :
    let r = save_form strings octets env sent portal in
    (r.0.settings ≡ settings) × (r.1.saves ≡ settings ∷ []) × (r.1.body ≡ saved_page)
save_form-sent_back_example =
    save_form-sent_back strings octets browser names env sent portal settings-Passable
      settings-HasInertAddresses refl

abbrev pub status : Status
status = record {
  sta = connected;
  local_ip = codes "10.0.0.7";
  gateway = codes "10.0.0.1";
  dns = codes "10.0.0.1";
  rssi = codes "-61";
  stations = 1;
  napt = true;
  now = 90061000;
  last_reset = codes "POWERON (clean power-up)";
}

abbrev others : Settings
others = record settings {
  uplink_pass = codes "swordfsh";
  eap_password = [];
  ap_pass = codes "another one";
  admin_pass = codes "yet another";
}
