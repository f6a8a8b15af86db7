-- ===== src/Portal/Injection.antt =====
-- The settings page against what is put into it: no stored text, whoever chose it, adds a tag.
use spool_gate.Base.{
  ◌≡◌, refl, ap, sym, ◌∙◌, Bool, true, false, Option, none, some, List, [], ◌∷◌, ◌++◌, Text, String,
  map,
}
use spool_gate.Config.{Settings, AddressText}
use spool_gate.Portal.{FormError}
use spool_gate.Portal.Markup.{Piece, page_head, page_foot, page_text, markup}
use spool_gate.Portal.Page.{Row, Status, append_status}
use spool_gate.Portal.ConfigPage.{
  kv_pieces, rows_pieces, error_pieces, security_options, tab_pieces, uplink_pieces, ap_pieces,
  led_pieces, admin_pieces, config_script, form_pieces, config_pieces,
}
use spool_gate.Portal.Structure.{in_text, structure, structure-erased, erased, erased-append}
use spool_gate.Portal.Tame.{HasInertAddresses, config_pieces-IsTame}

-- The part of a row that the code chooses: its name and its class.
abbrev pub mark_of : Row → String × Option String
mark_of r = (r.name, r.class)

mark_text : String × Option String → Text
mark_text (name, class) = erased (kv_pieces (record { name = name; value = []; class = class }))

marks_text : List (String × Option String) → Text
marks_text [] = []
marks_text (m ∷ ms) = mark_text m ++ marks_text ms

erased-kv_pieces : (r : Row) → erased (kv_pieces r) ≡ mark_text (mark_of r)
unfolding mark_text erased kv_pieces
erased-kv_pieces r = by_class r.class
  where
    by_class :
        (class : Option String)
        → erased (kv_pieces (record { name = r.name; value = r.value; class = class }))
          ≡ erased (kv_pieces (record { name = r.name; value = []; class = class }))
    by_class none = refl
    by_class (some c) = refl

erased-rows_pieces : (rs : List Row) → erased (rows_pieces rs) ≡ marks_text (map mark_of rs)
unfolding rows_pieces erased marks_text
erased-rows_pieces [] = refl
erased-rows_pieces (r ∷ rs) =
    erased-append (kv_pieces r) (rows_pieces rs)
    ∙ (ap (λ t. t ++ erased (rows_pieces rs)) (erased-kv_pieces r)
        ∙ ap (λ t. mark_text (mark_of r) ++ t) (erased-rows_pieces rs))

erased-uplink_pieces :
    (s s' : Settings) (b : Bool)
    → s.uplink_enterprise ≡ b
    → s'.uplink_enterprise ≡ b
    → erased (uplink_pieces s) ≡ erased (uplink_pieces s')
unfolding uplink_pieces security_options erased
erased-uplink_pieces s s' true p q = rw (p, q) refl
erased-uplink_pieces s s' false p q = rw (p, q) refl

-- Two lists of pieces that are the same text without their values.
abbrev Same : List Piece → List Piece → Type 0
Same ps qs = erased ps ≡ erased qs

append-Same :
    (ps qs ps' qs' : List Piece) → Same ps ps' → Same qs qs' → Same (ps ++ qs) (ps' ++ qs')
append-Same ps qs ps' qs' h k =
    erased-append ps qs
    ∙ (ap (λ t. t ++ erased qs) h ∙ (ap (λ t. erased ps' ++ t) k ∙ sym (erased-append ps' qs')))

form_pieces-Same :
    (ips : AddressText) (s s' : Settings)
    → s.uplink_enterprise ≡ s'.uplink_enterprise
    → Same (form_pieces ips s) (form_pieces ips s')
unfolding form_pieces
form_pieces-Same ips s s' e = append-Same tab_pieces _ tab_pieces _ refl (
    append-Same (uplink_pieces s) _ (uplink_pieces s') _
      (erased-uplink_pieces s s' s'.uplink_enterprise e refl)
      (append-Same (ap_pieces ips s) _ (ap_pieces ips s') _ (unfold ap_pieces erased in refl) (
        append-Same (led_pieces s) _ (led_pieces s') _ (unfold led_pieces erased in refl) (
          append-Same (admin_pieces s) config_script (admin_pieces s') config_script
            (unfold admin_pieces erased in refl) refl))))

config_pieces-Same :
    (ips : AddressText) (st st' : Status) (s s' : Settings) (e : Option FormError)
    → map mark_of (append_status ips st s) ≡ map mark_of (append_status ips st' s')
    → s.uplink_enterprise ≡ s'.uplink_enterprise
    → Same (config_pieces ips st s e) (config_pieces ips st' s' e)
unfolding config_pieces
config_pieces-Same ips st st' s s' e rows auth =
    append-Same (page_head " Settings") _ (page_head " Settings") _ refl (
      append-Same (markup "<h1>SpoolGate</h1><p class=sub>Settings</p>" ∷ []) _ (markup _ ∷ []) _
        refl
        (append-Same (error_pieces e) _ (error_pieces e) _ refl (
          append-Same (markup "<h2>Current state</h2>" ∷ []) _ (markup _ ∷ []) _ refl (
            append-Same (rows_pieces (append_status ips st s)) _
              (rows_pieces (append_status ips st' s')) _
              (erased-rows_pieces (append_status ips st s)
                ∙ (ap marks_text rows ∙ sym (erased-rows_pieces (append_status ips st' s'))))
              (append-Same (form_pieces ips s) page_foot (form_pieces ips s') page_foot
                (form_pieces-Same ips s s' auth) refl)))))

-- Nothing that is stored or received can add a tag or an attribute to the settings page: with the same
-- rows of the status, marked the same, and the same kind of security, any two settings and states of
-- the system give pages with byte for byte the same tags, whatever the texts in them are, provided that
-- the two addresses print without bytes of the markup.
pub structure-config_pieces :
    (ips : AddressText) (st st' : Status) (s s' : Settings) (e : Option FormError)
    → HasInertAddresses ips s
    → HasInertAddresses ips s'
    → map mark_of (append_status ips st s) ≡ map mark_of (append_status ips st' s')
    → s.uplink_enterprise ≡ s'.uplink_enterprise
    → structure in_text (page_text (config_pieces ips st s e))
      ≡ structure in_text (page_text (config_pieces ips st' s' e))
structure-config_pieces ips st st' s s' e h h' rows auth =
    let tame = config_pieces-IsTame ips st s e h in
    let tame' = config_pieces-IsTame ips st' s' e h' in
    structure-erased in_text (config_pieces ips st s e) tame.contains tame.inert
    ∙ (ap (structure in_text) (config_pieces-Same ips st st' s s' e rows auth)
        ∙ sym (structure-erased in_text (config_pieces ips st' s' e) tame'.contains tame'.inert))
