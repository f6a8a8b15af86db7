-- ===== src/Net/AttemptLog.antt =====
-- What src/net/uplink.cpp logs of a connection attempt, as text.
use spool_gate.Base.{
  ℕ, ◌≡◌, refl, ap, Bool, true, false, List, [], ◌∷◌, ◌++◌, Text, codes, decimal, stamped, length,
  c_str, if◌then◌else◌,
}
use spool_gate.Config.{Settings}
use spool_gate.Net.Uplink.{Call, log_target, log_eap, begin}

abbrev auth_text : Bool → Text
auth_text enterprise = if enterprise then codes "WPA2-Enterprise" else codes "WPA2-Personal"

-- `length` is that of the `String`; what is printed of it ends at a NUL.
unfoldable pub target_line : ℕ → Text → ℕ → Bool → Text
target_line now ssid n enterprise =
    stamped now
    ++ (codes "STA target: SSID=\""
        ++ (c_str ssid
            ++ (codes "\" ("
                ++ (decimal n ++ (codes " chars) auth=" ++ (auth_text enterprise ++ codes "\n"))))))

unfoldable pub eap_line : ℕ → Text → Text → ℕ → Text
eap_line now identity username n =
    stamped now
    ++ (codes "EAP: identity=\""
        ++ (c_str identity
            ++ (codes "\" username=\""
                ++ (c_str username ++ (codes "\" password=" ++ (decimal n ++ codes " chars\n"))))))

-- The calls of `logbuf::printf` among the calls of `begin`, with the reading of the clock in each.
unfoldable pub logged : ℕ → List Call → List Text
logged now [] = []
logged now (log_target ssid n enterprise ∷ rest) =
    target_line now ssid n enterprise ∷ logged now rest
logged now (log_eap identity username n ∷ rest) = eap_line now identity username n ∷ logged now rest
logged now (c ∷ rest) = logged now rest

logged-branch :
    (now : ℕ) (b : Bool) (t t' f f' : List Call)
    → logged now t ≡ logged now t'
    → logged now f ≡ logged now f'
    → logged now (if b then t else f) ≡ logged now (if b then t' else f')
logged-branch now true t t' f f' p q = p
logged-branch now false t t' f f' p q = q

-- Of the four stored passwords an attempt logs at most the length of the one for EAP: with any others,
-- that one of the same length, it logs the same text.
pub logged-begin :
    (now : ℕ) (s : Settings) (psk eap ap_pass admin_pass : Text)
    → length eap ≡ length s.eap_password
    → logged now (
        begin (record s {
          uplink_pass = psk;
          eap_password = eap;
          ap_pass = ap_pass;
          admin_pass = admin_pass;
        }))
      ≡ logged now (begin s)
unfolding begin logged
logged-begin now s psk eap ap_pass admin_pass e =
    ap (λ rest. target_line now s.uplink_ssid (length s.uplink_ssid) s.uplink_enterprise ∷ rest)
      (logged-branch now s.uplink_enterprise _ _ _ _
        (ap (λ n. eap_line now s.eap_identity s.eap_username n ∷ []) e) refl)
