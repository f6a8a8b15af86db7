-- ===== src/Net/Softap.antt =====
-- src/net/softap.h and src/net/softap.cpp: the bring-up of the SoftAP (what it has
-- under NAT_DEBUG is in Diagnostics, and its line in Lines).
use spool_gate.Base.{
  ℕ, ◌+◌, ◌-◌, ◌*◌, ◌≤◌, ◌≡◌, ◌≢◌, Bool, true, false, not, ◌&&◌, Option, some, List, [], ◌∷◌, ◌++◌,
  Text, c_str, Address, IsAddress, ltb, if◌then◌else◌, arith, ◌∙◌,
}
use spool_gate.Config.{Settings}

abbrev pub lease_minutes : ℕ
lease_minutes = 7 * 24 * 60

-- The one of `wifi_auth_mode_t` that is asked for.
pub data Auth : Type 0 where
  wpa2_psk : Auth

pub data Call : Type 0 where
  ap_begin : Call
  ap_config : Address → Address → Address → Address → Address → Call  -- ip gateway mask lease dns
  ap_create : Text → Text → ℕ → ℕ → ℕ → Bool → Auth → Call
  wait_started : ℕ → Call
  dhcps_stop : Call
  set_lease_time : ℕ → Call
  set_dns : Address → Call
  set_dns_offer : Call
  dhcps_start : Call

-- What the driver answers, and whether there is a netif.
pub record Answers : Type 0 where
  pub begun : Bool
  pub configured : Bool
  pub created : Bool
  pub started : Bool
  pub netif : Bool

unfoldable pub lease_start_for : Address → Address
lease_start_for ap_ip = record ap_ip { d = if ltb ap_ip.d 254 then ap_ip.d + 1 else ap_ip.d - 1 }

unfoldable pub apply_dns_offer : Bool → Address → List Call
apply_dns_offer netif dns =
    if not netif
    then []
    else dhcps_stop ∷ set_lease_time lease_minutes ∷ set_dns dns ∷ set_dns_offer ∷ dhcps_start ∷ []

abbrev pub subnet : Address
subnet = record { a = 255; b = 255; c = 255; d = 0 }

-- `begin()`: its result, and the calls that it made.
unfoldable pub begin : Settings → Answers → Bool × List Call
unfolding lease_start_for apply_dns_offer
begin s r =
    if not r.begun
    then (false, ap_begin ∷ [])
    else (let configured =
          ap_begin ∷ ap_config s.ap_ip s.ap_ip subnet (lease_start_for s.ap_ip) s.dns ∷ [] in
        if not r.configured
        then (false, configured)
        else (let created =
              configured
              ++ ap_create (c_str s.ap_ssid) (c_str s.ap_pass) 1 0 4 false wpa2_psk ∷ [] in
            if not r.created
            then (false, created)
            else (let waited = created ++ wait_started 1000 ∷ [] in
                if not r.started
                then (false, waited)
                else (true, waited ++ apply_dns_offer r.netif s.dns))))

-- The lease range starts inside the /24 of the router, at a host address that is not the router's
-- own, nor the network's, nor the broadcast address.
pub lease_start_for_lem :
    (ip : Address)
    → IsAddress ip
    → let l = lease_start_for ip in
      IsAddress l
      × (l.a ≡ ip.a)
      × (l.b ≡ ip.b)
      × (l.c ≡ ip.c)
      × (l.d ≢ ip.d)
      × (1 ≤ l.d)
      × (l.d ≤ 254)
unfolding lease_start_for
lease_start_for_lem ip v = ground arith

-- The DHCP server of the netif, as an interface: what the code relies on. A call is a step of its
-- state; options are taken while the server is stopped, and survive its start.
pub record Server : Type 1 where
  pub State : Type 0
  pub apply : Call → State → State
  pub running : State → Bool
  pub offers_dns : State → Bool
  pub dns_server : State → Option Address
  pub lease : State → Option ℕ  -- minutes
  pub running-stop : (v : State) → running (apply dhcps_stop v) ≡ false
  pub running-lease : (n : ℕ) (v : State) → running (apply (set_lease_time n) v) ≡ running v
  pub running-dns : (ip : Address) (v : State) → running (apply (set_dns ip) v) ≡ running v
  pub running-start : (v : State) → running (apply dhcps_start v) ≡ true
  pub lease-lease :
      (n : ℕ) (v : State) → running v ≡ false → lease (apply (set_lease_time n) v) ≡ some n
  pub lease-dns : (ip : Address) (v : State) → lease (apply (set_dns ip) v) ≡ lease v
  pub lease-offer : (v : State) → lease (apply set_dns_offer v) ≡ lease v
  pub lease-start : (v : State) → lease (apply dhcps_start v) ≡ lease v
  pub dns_server-dns : (ip : Address) (v : State) → dns_server (apply (set_dns ip) v) ≡ some ip
  pub dns_server-offer : (v : State) → dns_server (apply set_dns_offer v) ≡ dns_server v
  pub dns_server-start : (v : State) → dns_server (apply dhcps_start v) ≡ dns_server v
  pub offers_dns-offer : (v : State) → running v ≡ false → offers_dns (apply set_dns_offer v) ≡ true
  pub offers_dns-start : (v : State) → offers_dns (apply dhcps_start v) ≡ offers_dns v

pub all_answered : Answers → Bool
all_answered r = r.begun && (r.configured && (r.created && r.started))

-- `begin` succeeds exactly if the four calls before the DNS offer do.
pub begin_result : (s : Settings) (r : Answers) → (begin s r).0 ≡ all_answered r
unfolding begin all_answered
begin_result s r = ground arith

-- The calls of a `begin` that succeeds and finds the netif.
begin_calls :
    (s : Settings) (r : Answers)
    → (begin s r).0 ≡ true
    → r.netif ≡ true
    → (begin s r).1
      ≡ ap_begin
        ∷ ap_config s.ap_ip s.ap_ip subnet (lease_start_for s.ap_ip) s.dns
        ∷ ap_create (c_str s.ap_ssid) (c_str s.ap_pass) 1 0 4 false wpa2_psk
        ∷ wait_started 1000
        ∷ dhcps_stop
        ∷ set_lease_time lease_minutes
        ∷ set_dns s.dns
        ∷ set_dns_offer
        ∷ dhcps_start
        ∷ []
unfolding begin apply_dns_offer lease_start_for
begin_calls s r up has = ground arith

module _ (dhcp : Server) where
  unfoldable pub apply_all : List Call → dhcp.State → dhcp.State
  apply_all [] v = v
  apply_all (c ∷ cs) v = apply_all cs (dhcp.apply c v)

  -- What the calls of `applyDnsOffer` leave, from any state.
  offered :
      (dns : Address) (v : dhcp.State)
      → let v' =
          apply_all
            (dhcps_stop
              ∷ set_lease_time lease_minutes
              ∷ set_dns dns
              ∷ set_dns_offer
              ∷ dhcps_start
              ∷ [])
            v in
        (dhcp.running v' ≡ true)
        × (dhcp.offers_dns v' ≡ true)
        × (dhcp.dns_server v' ≡ some dns)
        × (dhcp.lease v' ≡ some lease_minutes)
  unfolding apply_all
  offered dns v = (
    dhcp.running-start v₄,
    dhcp.offers_dns-start v₄
        ∙ dhcp.offers_dns-offer v₃
            (dhcp.running-dns dns v₂ ∙ dhcp.running-lease lease_minutes v₁ ∙ dhcp.running-stop v),
    dhcp.dns_server-start v₄ ∙ dhcp.dns_server-offer v₃ ∙ dhcp.dns_server-dns dns v₂,
    dhcp.lease-start v₄
        ∙ dhcp.lease-offer v₃
        ∙ dhcp.lease-dns dns v₂
        ∙ dhcp.lease-lease lease_minutes v₁ (dhcp.running-stop v),
  )
    where
      v₁ : dhcp.State
      v₁ = dhcp.apply dhcps_stop v

      v₂ : dhcp.State
      v₂ = dhcp.apply (set_lease_time lease_minutes) v₁

      v₃ : dhcp.State
      v₃ = dhcp.apply (set_dns dns) v₂

      v₄ : dhcp.State
      v₄ = dhcp.apply set_dns_offer v₃

  -- Where `begin` succeeds and there is a netif, the DHCP server ends up running, with the lease time
  -- of a week, and offers the configured DNS server: whatever state the bring-up of the interface
  -- left it in, the options are set while it is stopped, and it is started again behind them.
  pub begin-serves :
      (s : Settings) (r : Answers) (v : dhcp.State)
      → (begin s r).0 ≡ true
      → r.netif ≡ true
      → let v' = apply_all (begin s r).1 v in
        (dhcp.running v' ≡ true)
        × (dhcp.offers_dns v' ≡ true)
        × (dhcp.dns_server v' ≡ some s.dns)
        × (dhcp.lease v' ≡ some lease_minutes)
  unfolding apply_all
  begin-serves s r v up has = rw (begin_calls s r up has) (
      offered s.dns (
        dhcp.apply (wait_started 1000) (
          dhcp.apply (ap_create (c_str s.ap_ssid) (c_str s.ap_pass) 1 0 4 false wpa2_psk) (
            dhcp.apply (ap_config s.ap_ip s.ap_ip subnet (lease_start_for s.ap_ip) s.dns)
              (dhcp.apply ap_begin v)))))
