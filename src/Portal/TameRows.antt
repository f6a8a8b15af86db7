-- ===== src/Portal/TameRows.antt =====
-- The rows of the status on the settings page: each starts and ends between two tags.
use spool_gate.Base.{
  ◌≡◌, refl, Bool, true, false, Option, none, some, List, [], ◌∷◌, ◌++◌, Text, String, codes,
  if◌then◌else◌, All,
}
use spool_gate.Config.{Settings, AddressText}
use spool_gate.Portal.Escape.{html_escape-IsInert}
use spool_gate.Portal.Page.{
  Row, Status, kv, append_status, status_head, credential_rows, link_rows, router_rows, status_tail,
  marked, is_connected,
}
use spool_gate.Portal.ConfigPage.{kv_pieces, class_pieces, rows_pieces}
use spool_gate.Portal.Structure.{
  in_text, in_tag, next, after, contained, leaves, AllInert, IsTame, append-IsTame,
}

-- A name stands between two tags, and a class inside of one.
abbrev pub IsName : String → Type 0
IsName name = after in_text (codes name) ≡ in_text

abbrev IsClass : Option String → Type 0
IsClass none = Unit
IsClass (some class) = after in_tag (codes class) ≡ in_tag

kv-IsTame :
    (name : String) (v : Text) (class : Option String)
    → IsName name
    → IsClass class
    → IsTame (kv_pieces (kv name v class))
unfolding kv_pieces class_pieces kv contained leaves AllInert after next
kv-IsTame name v none n k = record {
  contains = rw n refl;
  returns = rw n refl;
  inert = (html_escape-IsInert v, tt);
}
kv-IsTame name v (some class) n k = record {
  contains = rw n (rw k refl);
  returns = rw n (rw k refl);
  inert = (html_escape-IsInert v, tt);
}

choice-IsClass : (b : Bool) → IsClass (some (if b then "up" else "down"))
unfolding after next
choice-IsClass true = refl
choice-IsClass false = refl

marked-IsClass : (t : Text) → IsClass (marked t)
unfolding marked after next
marked-IsClass [] = refl
marked-IsClass (c ∷ t) = tt

-- Rows whose pieces are tame.
abbrev TameRows : List Row → Type 0
TameRows = All (λ r. IsTame (kv_pieces r))

TameRows-append : (rs qs : List Row) → TameRows rs → TameRows qs → TameRows (rs ++ qs)
TameRows-append [] qs h k = k
TameRows-append (r ∷ rs) qs h k = (h.0, TameRows-append rs qs h.1 k)

TameRows-if :
    (b : Bool) (rs qs : List Row) → TameRows rs → TameRows qs → TameRows (if b then rs else qs)
TameRows-if true rs qs h k = h
TameRows-if false rs qs h k = k

pub nothing-IsTame : IsTame []
unfolding contained leaves AllInert
nothing-IsTame = record { contains = refl; returns = refl; inert = tt }

rows_pieces-IsTame : (rs : List Row) → TameRows rs → IsTame (rows_pieces rs)
unfolding rows_pieces
rows_pieces-IsTame [] h = nothing-IsTame
rows_pieces-IsTame (r ∷ rs) h =
    append-IsTame (kv_pieces r) (rows_pieces rs) h.0 (rows_pieces-IsTame rs h.1)

status_head-TameRows : (st : Status) (s : Settings) → TameRows (status_head st s)
unfolding status_head after next
status_head-TameRows st s = (
  kv-IsTame "Uplink" _ _ refl (choice-IsClass _),
  (
    kv-IsTame "STA status" _ none refl tt,
    (kv-IsTame "SSID in use" _ none refl tt, (kv-IsTame "Security" _ none refl tt, tt)),
  ),
)

credential_rows-TameRows : (s : Settings) → TameRows (credential_rows s)
unfolding credential_rows after next
credential_rows-TameRows s =
    TameRows-if s.uplink_enterprise _ _
      (
        kv-IsTame "EAP identity" _ _ refl (marked-IsClass s.eap_identity),
        (
          kv-IsTame "EAP username" _ _ refl (marked-IsClass s.eap_username),
          (kv-IsTame "EAP password" _ _ refl (marked-IsClass s.eap_password), tt),
        ),
      )
      (kv-IsTame "Password" _ _ refl (marked-IsClass s.uplink_pass), tt)

link_rows-TameRows : (st : Status) → TameRows (link_rows st)
unfolding link_rows after next
link_rows-TameRows st =
    TameRows-if (is_connected st.sta) _ []
      (
        kv-IsTame "IP address" _ none refl tt,
        (
          kv-IsTame "Gateway" _ none refl tt,
          (kv-IsTame "Upstream DNS" _ none refl tt, (kv-IsTame "Signal" _ none refl tt, tt)),
        ),
      )
      tt

router_rows-TameRows :
    (ips : AddressText) (st : Status) (s : Settings) → TameRows (router_rows ips st s)
unfolding router_rows after next
router_rows-TameRows ips st s = (
  kv-IsTame "SoftAP" _ none refl tt,
  (
    kv-IsTame "Clients joined" _ none refl tt,
    (
      kv-IsTame "NAPT" _ _ refl (choice-IsClass st.napt),
      (kv-IsTame "Uptime" _ none refl tt, (kv-IsTame "Last reset" _ none refl tt, tt)),
    ),
  ),
)

status_tail-TameRows :
    (ips : AddressText) (st : Status) (s : Settings) → TameRows (status_tail ips st s)
unfolding status_tail
status_tail-TameRows ips st s =
    TameRows-append (link_rows st) (router_rows ips st s) (link_rows-TameRows st)
      (router_rows-TameRows ips st s)

pub append_status-IsTame :
    (ips : AddressText) (st : Status) (s : Settings) → IsTame (rows_pieces (append_status ips st s))
unfolding append_status
append_status-IsTame ips st s = rows_pieces-IsTame (append_status ips st s) (
    TameRows-append (status_head st s) _ (status_head-TameRows st s) (
      TameRows-append (credential_rows s) _ (credential_rows-TameRows s)
        (status_tail-TameRows ips st s)))
