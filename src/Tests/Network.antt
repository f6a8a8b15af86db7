-- ===== src/Tests/Network.antt =====
-- The SoftAP and an attempt on the uplink, for concrete settings.
use spool_gate.Base.{
  c_str, ℕ, ◌≡◌, refl, true, false, none, some, codes, Address, arith, Bool, if◌then◌else◌, Option,
  Text,
}
use spool_gate.Net.Softap as Softap
use spool_gate.Net.Softap.{
  Answers, Server, lease_start_for, lease_start_for_lem, begin-serves, lease_minutes,
}
use spool_gate.Net.Uplink as Uplink
use spool_gate.Config.{Settings}
use spool_gate.Net.Uplink.{Driver, HasCredentials, apply_all-begin, enterprise_credentials}
use spool_gate.Tests.Flash.{settings}

abbrev last_host : Address
last_host = record { a = 10; b = 0; c = 0; d = 254 }

abbrev all_well : Answers
all_well = record { begun = true; configured = true; created = true; started = true; netif = true }

-- A server that records its options while it is stopped.
abbrev Dhcp : Type 0
Dhcp = Bool × Bool × Option Address × Option ℕ

abbrev offer : Dhcp → Dhcp
offer (false, o, d, l) = (false, true, d, l)
offer v = v

abbrev lend : ℕ → Dhcp → Dhcp
lend n (false, o, d, l) = (false, o, d, some n)
lend n v = v

abbrev call : Softap.Call → Dhcp → Dhcp
call Softap.dhcps_stop (r, o, d, l) = (false, o, d, l)
call Softap.dhcps_start (r, o, d, l) = (true, o, d, l)
call (Softap.set_dns ip) (r, o, d, l) = (r, o, some ip, l)
call (Softap.set_lease_time n) v = lend n v
call Softap.set_dns_offer v = offer v
call _ v = v

lend-running : (n : ℕ) (v : Dhcp) → (lend n v).0 ≡ v.0
lend-running n (false, o, d, l) = refl
lend-running n (true, o, d, l) = refl

lend-lease : (n : ℕ) (v : Dhcp) → v.0 ≡ false → (lend n v).3 ≡ some n
lend-lease n (false, o, d, l) e = refl
lend-lease n (true, o, d, l) e = cc

offer-kept : (v : Dhcp) → ((offer v).2 ≡ v.2) × ((offer v).3 ≡ v.3)
offer-kept (false, o, d, l) = (refl, refl)
offer-kept (true, o, d, l) = (refl, refl)

offer-offers : (v : Dhcp) → v.0 ≡ false → (offer v).1 ≡ true
offer-offers (false, o, d, l) e = refl
offer-offers (true, o, d, l) e = cc

abbrev dhcp : Server
dhcp = record {
  State = Dhcp;
  apply = call;
  running = λ v. v.0;
  offers_dns = λ v. v.1;
  dns_server = λ v. v.2;
  lease = λ v. v.3;
  running-stop = λ v. refl;
  running-lease = lend-running;
  running-dns = λ ip v. refl;
  running-start = λ v. refl;
  lease-lease = lend-lease;
  lease-dns = λ ip v. refl;
  lease-offer = λ v. (offer-kept v).1;
  lease-start = λ v. refl;
  dns_server-dns = λ ip v. refl;
  dns_server-offer = λ v. (offer-kept v).0;
  dns_server-start = λ v. refl;
  offers_dns-offer = offer-offers;
  offers_dns-start = λ v. refl;
}

begins : (Softap.begin settings all_well).0 ≡ true
unfolding Softap.begin
begins = refl

begin-serves_example :
    let v' = Softap.apply_all dhcp (Softap.begin settings all_well).1 (true, false, none, none) in
    (v'.0 ≡ true) × (v'.1 ≡ true) × (v'.2 ≡ some settings.dns) × (v'.3 ≡ some lease_minutes)
begin-serves_example = begin-serves dhcp settings all_well (true, false, none, none) begins refl

record Station : Type 0 where
  idle : Bool
  identity : Option Text
  username : Option Text
  password : Option Text
  enterprise : Bool
  dialled : Option (Text × Option Text)

abbrev drive : Uplink.Call → Station → Station
drive Uplink.disconnect st = record st { idle = true }
drive (Uplink.set_identity t) st = record st { identity = some t }
drive (Uplink.set_username t) st = record st { username = some t }
drive (Uplink.set_password t) st = record st { password = some t }
drive Uplink.enterprise_enable st = record st { enterprise = true }
drive (Uplink.wifi_begin ssid pass) st = record st {
  dialled = if st.idle then some (ssid, pass) else st.dialled;
  idle = false;
}
drive _ st = st

dials :
    (ssid : Text) (pass : Option Text) (st : Station)
    → st.idle ≡ true
    → (drive (Uplink.wifi_begin ssid pass) st).dialled ≡ some (ssid, pass)
dials ssid pass st e = ground arith

abbrev station : Driver
station = record {
  State = Station;
  apply = drive;
  idle = λ st. st.idle;
  identity = λ st. st.identity;
  username = λ st. st.username;
  password = λ st. st.password;
  enterprise = λ st. st.enterprise;
  dialled = λ st. st.dialled;
  idle-disconnect = λ st. refl;
  idle-identity = λ t st. refl;
  idle-username = λ t st. refl;
  idle-password = λ t st. refl;
  idle-enable = λ st. refl;
  identity-identity = λ t st. refl;
  identity-username = λ t st. refl;
  identity-password = λ t st. refl;
  identity-enable = λ st. refl;
  username-username = λ t st. refl;
  username-password = λ t st. refl;
  username-enable = λ st. refl;
  password-password = λ t st. refl;
  password-enable = λ st. refl;
  enterprise-enable = λ st. refl;
  dialled-begin = dials;
}

abbrev busy : Station
busy = record {
  idle = false;
  identity = none;
  username = none;
  password = none;
  enterprise = false;
  dialled = none;
}

abbrev campus : Settings
campus = record settings { uplink_enterprise = true }

enterprise_credentials_example :
    (d : Station) × (Uplink.apply_all station (Uplink.begin campus) busy
      ≡ drive (Uplink.wifi_begin (codes "campus") none) d)
    × HasCredentials station campus d
unfolding c_str
enterprise_credentials_example = enterprise_credentials station campus busy refl
