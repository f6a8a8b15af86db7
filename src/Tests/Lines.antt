-- ===== src/Tests/Lines.antt =====
-- Log lines of the router, and of an attempt.
use spool_gate.Base.{◌≡◌, refl, [], ◌∷◌, ◌++◌, codes, arith, negsuc}
use spool_gate.Config.{Settings}
use spool_gate.Logbuf.{blank, newline}
use spool_gate.Logbuf.Ring.{blank-IsValid, held, remember}
use spool_gate.Router.{Line, heartbeat}
use spool_gate.Router.Lines.{line_text, kept_text, printf_line}
use spool_gate.Router.Fit.{IsPrintable, printf_line_lem}
use spool_gate.Net.Uplink.{begin}
use spool_gate.Net.AttemptLog.{logged, logged-begin}
use spool_gate.Tests.Flash.{octets, settings}

abbrev beat : Line
beat = heartbeat (codes "uplink=up ch=6 clients=1 napt=1 health up=ok down=ok") (negsuc 54)

beat-IsPrintable : IsPrintable octets beat
unfolding IsPrintable
beat-IsPrintable = record { bound = omega arith; plain = refl }

printf_line_example :
    ((printf_line octets 61000 beat blank).0 ≡ line_text octets 61000 beat ++ newline ∷ [])
    × (held (printf_line octets 61000 beat blank).1
        ≡ remember (kept_text octets 61000 beat) (held blank))
printf_line_example = printf_line_lem octets 61000 beat blank beat-IsPrintable blank-IsValid

abbrev others : Settings
others = record settings {
  uplink_pass = codes "another";
  eap_password = [];
  ap_pass = codes "secret99";
  admin_pass = codes "x";
}

logged-begin_example : logged 5000 (begin others) ≡ logged 5000 (begin settings)
logged-begin_example =
    logged-begin 5000 settings (codes "another") [] (codes "secret99") (codes "x") refl
