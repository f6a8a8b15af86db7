-- ===== src/Net/Uplink.antt =====
-- src/net/uplink.h and src/net/uplink.cpp: the start of a connection attempt.
use spool_gate.Base.{
  ℕ, ◌≡◌, Bool, true, false, Option, none, some, List, [], ◌∷◌, Text, c_str, length, if◌then◌else◌,
  arith, ◌∙◌, ap, Bool-cases, inl, inr,
}
use spool_gate.Config.{Settings}

pub data Call : Type 0 where
  set_auto_reconnect : Bool → Call
  disconnect : Call
  log_target : Text → ℕ → Bool → Call
  log_eap : Text → Text → ℕ → Call
  set_identity set_username set_password : Text → Call
  enterprise_enable : Call
  wifi_begin : Text → Option Text → Call

unfoldable pub begin : Settings → List Call
begin s =
    set_auto_reconnect false
    ∷ disconnect
    ∷ log_target s.uplink_ssid (length s.uplink_ssid) s.uplink_enterprise
    ∷ (if s.uplink_enterprise
        then log_eap s.eap_identity s.eap_username (length s.eap_password)
          ∷ set_identity s.eap_identity
          ∷ set_username s.eap_username
          ∷ set_password s.eap_password
          ∷ enterprise_enable
          ∷ wifi_begin (c_str s.uplink_ssid) none
          ∷ []
        else wifi_begin (c_str s.uplink_ssid) (some (c_str s.uplink_pass)) ∷ [])

-- The station's driver, as an interface: what the code relies on. A call is a step of its state; an
-- attempt is made only if no attempt of before is in flight, which a disconnect ends.
pub record Driver : Type 1 where
  pub State : Type 0
  pub apply : Call → State → State
  pub idle : State → Bool
  pub identity : State → Option Text
  pub username : State → Option Text
  pub password : State → Option Text
  pub enterprise : State → Bool
  pub dialled : State → Option (Text × Option Text)
  pub idle-disconnect : (st : State) → idle (apply disconnect st) ≡ true
  pub idle-identity : (t : Text) (st : State) → idle (apply (set_identity t) st) ≡ idle st
  pub idle-username : (t : Text) (st : State) → idle (apply (set_username t) st) ≡ idle st
  pub idle-password : (t : Text) (st : State) → idle (apply (set_password t) st) ≡ idle st
  pub idle-enable : (st : State) → idle (apply enterprise_enable st) ≡ idle st
  pub identity-identity : (t : Text) (st : State) → identity (apply (set_identity t) st) ≡ some t
  pub identity-username :
      (t : Text) (st : State) → identity (apply (set_username t) st) ≡ identity st
  pub identity-password :
      (t : Text) (st : State) → identity (apply (set_password t) st) ≡ identity st
  pub identity-enable : (st : State) → identity (apply enterprise_enable st) ≡ identity st
  pub username-username : (t : Text) (st : State) → username (apply (set_username t) st) ≡ some t
  pub username-password :
      (t : Text) (st : State) → username (apply (set_password t) st) ≡ username st
  pub username-enable : (st : State) → username (apply enterprise_enable st) ≡ username st
  pub password-password : (t : Text) (st : State) → password (apply (set_password t) st) ≡ some t
  pub password-enable : (st : State) → password (apply enterprise_enable st) ≡ password st
  pub enterprise-enable : (st : State) → enterprise (apply enterprise_enable st) ≡ true
  pub dialled-begin :
      (ssid : Text) (pass : Option Text) (st : State)
      → idle st ≡ true
      → dialled (apply (wifi_begin ssid pass) st) ≡ some (ssid, pass)

module _ (driver : Driver) where
  -- The lines of the log do not reach the driver.
  unfoldable pub apply_all : List Call → driver.State → driver.State
  apply_all [] st = st
  apply_all (log_target ssid n ent ∷ cs) st = apply_all cs st
  apply_all (log_eap a b n ∷ cs) st = apply_all cs st
  apply_all (c ∷ cs) st = apply_all cs (driver.apply c st)

  -- The state in which the attempt is made.
  unfoldable pub before_dial : Settings → driver.State → driver.State
  before_dial s st =
      let ready = driver.apply disconnect (driver.apply (set_auto_reconnect false) st) in
      if s.uplink_enterprise
      then driver.apply enterprise_enable (
          driver.apply (set_password s.eap_password) (
            driver.apply (set_username s.eap_username)
              (driver.apply (set_identity s.eap_identity) ready)))
      else ready

  begin-before_dial :
      (s : Settings) (st : driver.State)
      → apply_all (begin s) st
        ≡ driver.apply
            (wifi_begin
              (c_str s.uplink_ssid)
              (if s.uplink_enterprise then none else some (c_str s.uplink_pass)))
            (before_dial s st)
  unfolding begin before_dial apply_all
  begin-before_dial s st = ground arith

  -- The driver holds the credentials of the settings.
  pub record HasCredentials (s : Settings) (st : driver.State) : Type 0 where
    pub identity_set : driver.identity st ≡ some s.eap_identity
    pub username_set : driver.username st ≡ some s.eap_username
    pub password_set : driver.password st ≡ some s.eap_password
    pub enterprise_on : driver.enterprise st ≡ true

  with_credentials :
      (s : Settings) (st : driver.State)
      → let st' = driver.apply enterprise_enable (
          driver.apply (set_password s.eap_password) (
            driver.apply
              (set_username s.eap_username)
              (driver.apply (set_identity s.eap_identity) st))) in
        HasCredentials s st' × (driver.idle st' ≡ driver.idle st)
  with_credentials s st = (
    record {
      identity_set =
          driver.identity-enable st₃
          ∙ driver.identity-password s.eap_password st₂
          ∙ driver.identity-username s.eap_username st₁
          ∙ driver.identity-identity s.eap_identity st;
      username_set =
          driver.username-enable st₃
          ∙ driver.username-password s.eap_password st₂
          ∙ driver.username-username s.eap_username st₁;
      password_set = driver.password-enable st₃ ∙ driver.password-password s.eap_password st₂;
      enterprise_on = driver.enterprise-enable st₃;
    },
    driver.idle-enable st₃
        ∙ driver.idle-password s.eap_password st₂
        ∙ driver.idle-username s.eap_username st₁
        ∙ driver.idle-identity s.eap_identity st,
  )
    where
      st₁ : driver.State
      st₁ = driver.apply (set_identity s.eap_identity) st

      st₂ : driver.State
      st₂ = driver.apply (set_username s.eap_username) st₁

      st₃ : driver.State
      st₃ = driver.apply (set_password s.eap_password) st₂

  before_dial-idle : (s : Settings) (st : driver.State) → driver.idle (before_dial s st) ≡ true
  unfolding before_dial
  before_dial-idle s st =
      let ready = driver.apply (set_auto_reconnect false) st in
      elim (Bool-cases s.uplink_enterprise) [
        | inl ent ↦
            rw (ent, before_dial)
              ((with_credentials s (driver.apply disconnect ready)).1
                ∙ driver.idle-disconnect ready)
        | inr psk ↦ rw (psk, before_dial) (driver.idle-disconnect ready)
      ]

  -- The call dials the configured network whatever was in flight before: it is made in a state that is
  -- idle, with the key on a personal network and with none on an enterprise one.
  pub apply_all-begin :
      (s : Settings) (st : driver.State)
      → driver.dialled (apply_all (begin s) st)
        ≡ some
            (c_str s.uplink_ssid, if s.uplink_enterprise then none else some (c_str s.uplink_pass))
  apply_all-begin s st =
      ap driver.dialled (begin-before_dial s st)
      ∙ driver.dialled-begin (c_str s.uplink_ssid)
          (if s.uplink_enterprise then none else some (c_str s.uplink_pass)) (before_dial s st)
          (before_dial-idle s st)

  -- On an enterprise network the attempt is dialled from a state that holds the three configured
  -- credentials, with 802.1X switched on, and without a pre-shared key.
  pub enterprise_credentials :
      (s : Settings) (st : driver.State)
      → s.uplink_enterprise ≡ true
      → (d : driver.State) × (apply_all (begin s) st
          ≡ driver.apply (wifi_begin (c_str s.uplink_ssid) none) d)
        × HasCredentials s d
  unfolding before_dial
  enterprise_credentials s st ent = (
    equipped,
    begin-before_dial s st
        ∙ ap
            (λ b.
              driver.apply
                (wifi_begin (c_str s.uplink_ssid) (if b then none else some (c_str s.uplink_pass)))
                (if b then equipped else ready))
            ent,
    (with_credentials s ready).0,
  )
    where
      ready : driver.State
      ready = driver.apply disconnect (driver.apply (set_auto_reconnect false) st)

      equipped : driver.State
      equipped = driver.apply enterprise_enable (
          driver.apply (set_password s.eap_password) (
            driver.apply (set_username s.eap_username)
              (driver.apply (set_identity s.eap_identity) ready)))

-- A password is never logged, only its length: what `begin` logs is the same for two passwords of
-- one length.
pub is_log : Call → Bool
is_log (log_target a n b) = true
is_log (log_eap a b n) = true
is_log _ = false

pub logs : List Call → List Call
unfolding is_log
logs [] = []
logs (c ∷ cs) = if is_log c then c ∷ logs cs else logs cs

pub logs-begin :
    (s : Settings) (eap_pass psk : Text)
    → length eap_pass ≡ length s.eap_password
    → logs (begin (record s { eap_password = eap_pass; uplink_pass = psk })) ≡ logs (begin s)
unfolding logs begin
logs-begin s eap_pass psk e = ground arith
