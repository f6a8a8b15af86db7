-- ===== src/Net/Lines.antt =====
-- What src/net/napt.cpp and, under NAT_DEBUG, src/net/softap.cpp log, as text. The newline at the end is
-- left out.
use spool_gate.Base.{
  ℕ, refl, Bool, true, false, ◌++◌, Text, Address, codes, decimal, decimal_from, stamped,
  if◌then◌else◌,
}
use spool_gate.Config.{AddressText}
use spool_gate.Net.Softap.{lease_minutes}
use spool_gate.Logbuf.Pieces.{IsPiece, append-IsPiece, literal, stamped-IsPiece}

-- `ok` is what the driver returned.
unfoldable pub enable_line : ℕ → Bool → Text
enable_line now ok =
    stamped now ++ (codes "enableNAPT(true) returned " ++ (if ok then codes "1" else codes "0"))

-- The names of the four results of the calls of `applyDnsOffer`, as `esp_err_to_name` has them.
pub record OfferResults : Type 0 where
  pub set_dns : Text
  pub option : Text
  pub dhcps_start : Text
  pub lease : Text

unfoldable pub offer_line : AddressText → ℕ → Address → OfferResults → Text
offer_line ips now dns r =
    stamped now
    ++ (codes "DNS offer "
        ++ (ips.to_string dns
            ++ (codes ": set_dns="
                ++ (r.set_dns
                    ++ (codes " option="
                        ++ (r.option
                            ++ (codes " dhcps_start="
                                ++ (r.dhcps_start
                                    ++ (codes " lease="
                                        ++ (r.lease
                                            ++ (codes " ("
                                                ++ (decimal lease_minutes
                                                    ++ codes " min)"))))))))))))

enable_line-IsPiece : (now : ℕ) (ok : Bool) → IsPiece 40 (enable_line now ok)
unfolding enable_line
enable_line-IsPiece now true =
    append-IsPiece 13 27 _ _ (stamped-IsPiece now) (literal 27 _ refl refl)
enable_line-IsPiece now false =
    append-IsPiece 13 27 _ _ (stamped-IsPiece now) (literal 27 _ refl refl)

-- The line of the DNS offer fits a row of the log if the names of the results have at most nine bytes,
-- as that of success does; with the longer names of an error its end can be cut.
offer_line-IsPiece :
    (ips : AddressText) (now : ℕ) (dns : Address) (r : OfferResults)
    → IsPiece 15 (ips.to_string dns)
    → IsPiece 9 r.set_dns
    → IsPiece 9 r.option
    → IsPiece 9 r.dhcps_start
    → IsPiece 9 r.lease
    → IsPiece 126 (offer_line ips now dns r)
unfolding offer_line decimal decimal_from
offer_line-IsPiece ips now dns r a b c d e = append-IsPiece 13 113 _ _ (stamped-IsPiece now) (
    append-IsPiece 10 103 _ _ (literal 10 (codes "DNS offer ") refl refl) (
      append-IsPiece 15 88 _ _ a (
        append-IsPiece 10 78 _ _ (literal 10 (codes ": set_dns=") refl refl) (
          append-IsPiece 9 69 _ _ b (
            append-IsPiece 8 61 _ _ (literal 8 (codes " option=") refl refl) (
              append-IsPiece 9 52 _ _ c (
                append-IsPiece 13 39 _ _ (literal 13 (codes " dhcps_start=") refl refl) (
                  append-IsPiece 9 30 _ _ d (
                    append-IsPiece 7 23 _ _ (literal 7 (codes " lease=") refl refl) (
                      append-IsPiece 9 14 _ _ e (
                        literal 14 (codes " (" ++ (decimal lease_minutes ++ codes " min)")) refl
                          refl)))))))))))
