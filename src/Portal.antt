-- ===== src/Portal.antt =====
-- src/web/portal.h and src/web/portal.cpp: the admin portal. The state is a record, a request is what
-- the handlers read of it, and a handler returns the new state beside its response. The web server
-- and the text functions of Arduino's `String` are not under src/: `Strings` states what is used of
-- them. A response says which page it is and what is put into it; Markup and Render have its bytes.
pub mod Access
pub mod Form
pub mod Handlers
pub mod Escape
pub mod Speed
pub mod Json
pub mod StatJson
pub mod Signal
pub mod Gate
pub mod Cookie
pub mod Session
pub mod Save
pub mod Persist
pub mod Page
pub mod Resubmit
pub mod Markup
pub mod Pages
pub mod ConfigPage
pub mod Structure
pub mod TameRows
pub mod Tame
pub mod Render
pub mod Wire
pub mod Disclosure
pub mod Reader
pub mod Parts
pub mod FormText
pub mod SentBack
pub mod Injection
use spool_gate.Base.{
  not, decimal, pos, ◌<◌, ℕ, zero, suc, ◌+◌, ◌≡◌, Bool, true, false, ◌&&◌, ◌||◌, Option, none, some,
  List, [], ◌∷◌, Text, String, ℤ, ◌==◌, if◌then◌else◌, Address, is_empty, leb,
}
use text.Mathlib.Text.{◌==◌ as str_eq}
use spool_gate.Config.{Settings}
use spool_gate.Health
use spool_gate.Logbuf.{Log}

-- `needle` is the beginning of the text.
abbrev pub is_prefix : Text → Text → Bool
is_prefix [] t = true
is_prefix (c ∷ needle) [] = false
is_prefix (c ∷ needle) (d ∷ t) = c == d && is_prefix needle t

abbrev pub suc_option : Option ℕ → Option ℕ
suc_option none = none
suc_option (some n) = some (suc n)

-- The position of the first occurrence.
abbrev pub first_index : Text → Text → Option ℕ
first_index needle [] = if is_empty needle then some 0 else none
first_index needle (c ∷ t) =
    let later = suc_option (first_index needle t) in
    if is_prefix needle (c ∷ t) then some 0 else later

-- A byte that `trim` takes for white space: a space, or one of the control bytes 9 to 13.
abbrev pub is_blank : ℕ → Bool
is_blank c = c == 32 || (leb 9 c && leb c 13)

abbrev pub starts_blank : Text → Bool
starts_blank [] = false
starts_blank (c ∷ t) = is_blank c

abbrev pub ends_blank : Text → Bool
ends_blank [] = false
ends_blank (c ∷ []) = is_blank c
ends_blank (c ∷ d ∷ t) = ends_blank (d ∷ t)

-- There is nothing to trim.
abbrev pub is_trimmed : Text → Bool
is_trimmed t = not (starts_blank t) && not (ends_blank t)

-- `indexOf` (`none` is -1), `trim` and `toInt` of Arduino's `String`: the first finds the first
-- occurrence, the second leaves a text alone that neither starts nor ends with white space, and the
-- third reads back the number that was printed.
pub record Strings : Type 0 where
  pub index_of : Text → Text → Option ℕ
  pub trim : Text → Text
  pub to_int : Text → ℤ
  pub index_of-first_index : (s needle : Text) → index_of s needle ≡ first_index needle s
  pub trim_trimmed : (t : Text) → is_trimmed t ≡ true → trim t ≡ t
  pub to_int-decimal : (n : ℕ) → n < 256 → to_int (decimal n) ≡ pos n

pub data Method : Type 0 where
  get post other_method : Method

-- What a handler reads of a request.
pub record Request : Type 0 where
  pub remote : Address
  pub method : Method
  pub path : String
  pub args : List (String × Text)
  pub cookie : Option Text
  pub connected : ℕ → Bool  -- `server.client().connected()` before the n-th block

abbrev find_arg : String → List (String × Text) → Option Text
find_arg k [] = none
find_arg k ((j, v) ∷ rest) = if str_eq j k then some v else find_arg k rest

-- `server.hasArg` and `server.arg`: a missing argument reads as the empty text.
abbrev pub get_arg : String → Request → Option Text
get_arg k q = find_arg k q.args

abbrev text_of : Option Text → Text
text_of none = []
text_of (some t) = t

abbrev pub arg : String → Request → Text
arg k q = text_of (get_arg k q)

abbrev pub has_arg : String → Request → Bool
has_arg k q = elim (get_arg k q) [ none ↦ false | some t ↦ true ]

-- The globals of the file, and `config::settings`.
pub record Portal : Type 0 where
  pub settings : Settings
  pub session : Text
  pub session_expiry_ms : ℕ
  pub reboot_at_ms : ℕ  -- non-zero once a save has scheduled a reboot
  pub speed_bytes : ℕ
  pub speed_ms : ℕ

-- What a form may be refused for.
pub data FormError : Type 0 where
  uplink_ssid_empty ap_ssid_empty admin_user_empty ap_ip_invalid dns_invalid ap_pass_short
        eap_username_empty :
      FormError

pub data Body : Type 0 where
  plain : String → Body
  login_page : Option String → Body
  config_page : Settings → Option FormError → Body
  saved_page log_page speed_page : Body
  log_text json : Text → Body
  filler : ℕ → Body  -- so many bytes
  nothing : Body

pub data Header : Type 0 where
  no_store : Header
  location : String → Header
  set_cookie : Text → Header
  clear_cookie : Header

pub record Response : Type 0 where
  pub status : ℕ
  pub headers : List Header
  pub body : Body
  pub saves : List Settings  -- what `config::save` was called with
  pub lines : List Text  -- what was logged

-- What `/stat.json` reads of the running system.
pub record Vitals : Type 0 where
  pub now : ℕ
  pub up : Bool  -- `WiFi.status()` is `WL_CONNECTED`
  pub napt : Bool
  pub channel : ℕ
  pub rssi : ℤ  -- of the uplink
  pub stations : ℕ
  pub sta_list : Option (List ℤ)  -- the signals of the clients, unless the query fails
  pub health_up : Health.Result
  pub health_down : Health.Result
  pub heap_free : ℕ
  pub heap_min : ℕ
  pub heap_block : ℕ

-- The readings of the clock and the random words that a request may use, the log, and what
-- the rest of the system shows.
pub record Env : Type 0 where
  pub now : ℕ
  pub renew_now : ℕ
  pub login_now : ℕ
  pub save_now : ℕ
  pub line_now : ℕ
  pub speed_now : ℕ  -- at the start of a speed test
  pub block_now : ℕ → ℕ  -- before the n-th block of a speed test
  pub random : ℕ → ℕ
  pub memory : Bool  -- `malloc` succeeds
  pub log : Log
  pub vitals : Vitals
