-- ===== src/Tests/Flash.antt =====
-- A store and a form of addresses that keep the laws, and the settings over them.
use text.Mathlib.Text.{◌==◌ as str_eq}
use spool_gate.Base.{
  ◌≡◌, ◌≢◌, refl, true, false, ◌&&◌, Option, none, some, [], ◌∷◌, Text, String, codes, Address,
  IsAddress, if◌then◌else◌, ltb, arith, ap,
}
use spool_gate.Config.{
  Settings, Secrets, AddressText, load_from_defaults, save, begin, factory_reset,
}
use spool_gate.Config.Nvs.{Store, Value, Mode, closed, read_only, read_write, is_some}
use spool_gate.Config.Flash.{HasAddresses, latest, entries}
use spool_gate.Config.Reboot.{begin-save, factory_reset_lem, begin_provisioned_lem, settings_of}

abbrev Flash : Type 0
Flash = Mode × (String → Option Value)

abbrev pub put_flash : String → Value → Flash → Flash
put_flash k v (read_write, f) = (read_write, λ j. if str_eq k j then some v else f j)
put_flash k v s = s

abbrev pub clear_flash : Flash → Flash
clear_flash (read_write, f) = (read_write, λ k. none)
clear_flash s = s

abbrev pub get_flash : String → Flash → Option Value
get_flash k (closed, f) = none
get_flash k (m, f) = f k

pub put_mode : (k : String) (v : Value) (s : Flash) → (put_flash k v s).0 ≡ s.0
put_mode k v (closed, f) = refl
put_mode k v (read_only, f) = refl
put_mode k v (read_write, f) = refl

pub clear_mode : (s : Flash) → (clear_flash s).0 ≡ s.0
clear_mode (closed, f) = refl
clear_mode (read_only, f) = refl
clear_mode (read_write, f) = refl

pub put_content :
    (k : String) (v : Value) (s : Flash) (j : String)
    → s.0 ≡ read_write
    → (put_flash k v s).1 j ≡ (if str_eq k j then some v else s.1 j)
put_content k v (closed, f) j e = cc
put_content k v (read_only, f) j e = cc
put_content k v (read_write, f) j e = refl

pub clear_content : (s : Flash) (k : String) → s.0 ≡ read_write → (clear_flash s).1 k ≡ none
clear_content (closed, f) k e = cc
clear_content (read_only, f) k e = cc
clear_content (read_write, f) k e = refl

pub get_content : (k : String) (s : Flash) → s.0 ≢ closed → get_flash k s ≡ s.1 k
get_content k (closed, f) open_ = absurd (open_ refl)
get_content k (read_only, f) open_ = refl
get_content k (read_write, f) open_ = refl

abbrev pub flash : Store
flash = record {
  State = Flash;
  begin = λ ro s. ((if ro then read_only else read_write), s.1);
  end = λ s. (closed, s.1);
  is_key = λ k s. is_some (get_flash k s);
  put = put_flash;
  get = get_flash;
  clear = clear_flash;
  content = λ s. s.1;
  mode = λ s. s.0;
  mode-begin = λ ro s. refl;
  mode-put = put_mode;
  mode-clear = clear_mode;
  content-begin = λ ro s k. refl;
  content-end = λ s k. refl;
  content-put = put_content;
  content-clear = clear_content;
  get-content = get_content;
  is_key-content = λ k s open_. ap is_some (get_content k s open_);
}

abbrev pub read_octets : Text → Option Address
read_octets (a ∷ b ∷ c ∷ d ∷ []) =
    if ltb a 256 && (ltb b 256 && (ltb c 256 && ltb d 256))
    then some (record { a = a; b = b; c = c; d = d })
    else none
read_octets _ = none

pub read_valid : (t : Text) (ip : Address) → read_octets t ≡ some ip → IsAddress ip
read_valid t ip e = ground arith

pub read_printed :
    (ip : Address) → IsAddress ip → read_octets (ip.a ∷ ip.b ∷ ip.c ∷ ip.d ∷ []) ≡ some ip
read_printed ip v = ground arith

-- Four bytes for an address.
abbrev pub octets : AddressText
octets = record {
  from_string = read_octets;
  to_string = λ ip. ip.a ∷ ip.b ∷ ip.c ∷ ip.d ∷ [];
  from_string-to_string = read_printed;
  from_string-IsAddress = read_valid;
}

abbrev pub secrets : Secrets
secrets = record {
  uplink_ssid = codes "campus";
  uplink_auth_enterprise = true;
  uplink_pass = [];
  uplink_eap_identity = codes "anonymous";
  uplink_eap_username = codes "printer";
  uplink_eap_password = codes "secret";
  printernet_ssid = codes "printers";
  printernet_pass = codes "printers1";
}

abbrev pub settings : Settings
settings = record {
  uplink_ssid = codes "campus";
  uplink_enterprise = false;
  uplink_pass = codes "hunter22";
  eap_identity = [];
  eap_username = codes "printer";
  eap_password = [];
  ap_ssid = codes "printers";
  ap_pass = codes "printers1";
  ap_ip = record { a = 10; b = 1; c = 2; d = 3 };
  dns = record { a = 9; b = 9; c = 9; d = 9 };
  led_brightness = 7;
  admin_user = codes "admin";
  admin_pass = codes "printers1";
}

pub settings-HasAddresses : HasAddresses settings
settings-HasAddresses = omega arith

abbrev pub blank_flash : Flash
blank_flash = (closed, λ k. none)

begin-save_example :
    ((begin flash octets secrets (save flash octets settings blank_flash)).0 ≡ settings)
    × ((j : String)
        → (begin flash octets secrets (save flash octets settings blank_flash)).1.1 j
          ≡ (save flash octets settings blank_flash).1 j)
begin-save_example = begin-save flash octets secrets settings blank_flash settings-HasAddresses

factory_reset_example :
    ((factory_reset flash octets secrets blank_flash).0 ≡ load_from_defaults secrets)
    × ((begin flash octets secrets (factory_reset flash octets secrets blank_flash).1).0
        ≡ load_from_defaults secrets)
    × ((j : String)
        → (factory_reset flash octets secrets blank_flash).1.1 j
          ≡ latest j (entries octets (load_from_defaults secrets)) none)
factory_reset_example = factory_reset_lem flash octets secrets secrets blank_flash

-- A flash of an earlier build, with one key.
abbrev old_flash : Flash
old_flash = (closed, (put_flash "uSsid" (Value.str (codes "home")) (read_write, λ k. none)).1)

begin_provisioned_example :
    ((begin flash octets secrets old_flash).0
      ≡ settings_of octets (load_from_defaults secrets) old_flash.1)
    × ((j : String) → (begin flash octets secrets old_flash).1.1 j ≡ old_flash.1 j)
begin_provisioned_example = begin_provisioned_lem flash octets secrets old_flash refl
