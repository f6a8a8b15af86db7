-- ===== src/Tests/Markup.antt =====
-- The pages: their scripts, and a settings page whose SSID is a tag.
use spool_gate.Base.{
  ◌≡◌, refl, Bool, true, false, not, none, [], ◌∷◌, ◌==◌, if◌then◌else◌, Text, codes, map, arith,
}
use spool_gate.Config.{Settings}
use spool_gate.Portal.Markup.{page_text}
use spool_gate.Portal.Page.{
  append_status, status_head, credential_rows, status_tail, kv, router_rows, form_inputs,
}
use spool_gate.Portal.Pages.{log_script, speed_script}
use spool_gate.Portal.ConfigPage.{config_script, config_pieces, form_pieces}
use spool_gate.Portal.Structure.{structure, in_text}
use spool_gate.Portal.Reader.{tags, inputs_of}
use spool_gate.Portal.FormText.{tags-form_pieces}
use spool_gate.Portal.Tame.{HasInertAddresses}
use spool_gate.Portal.Injection.{structure-config_pieces, mark_of}
use spool_gate.Portal.Disclosure.{handle-Agree, Agree, Passwords, HasLengths, swap}
use spool_gate.Portal.Handlers.{handle, to_root}
use spool_gate.Tests.Flash.{settings, octets}
use spool_gate.Tests.Form.{strings, status, settings-HasInertAddresses}
use spool_gate.Tests.Admin.{portal, env, with_cookie}

-- No string literal of the script, between its single quotes, holds a line end.
strings_closed : Bool → Text → Bool
strings_closed quoted [] = not quoted
strings_closed quoted (c ∷ t) =
    let rest = strings_closed (if c == 39 then not quoted else quoted) t in
    if c == 10 then (if quoted then false else rest) else rest

speed_script_closed : strings_closed false (page_text speed_script) ≡ true
unfolding strings_closed page_text speed_script
speed_script_closed = refl

config_script_closed : strings_closed false (page_text config_script) ≡ true
unfolding strings_closed page_text config_script
config_script_closed = refl

-- In the script of the log page one does: its `\n` is a line end already in the literal of the code.
log_script_broken : strings_closed false (page_text log_script) ≡ false
unfolding strings_closed page_text log_script
log_script_broken = refl

abbrev hostile : Settings
hostile = record settings { uplink_ssid = codes "'><script>alert(1)</script>" }

hostile-HasInertAddresses : HasInertAddresses octets hostile
hostile-HasInertAddresses = ground arith

same_marks :
    map mark_of (append_status octets status hostile)
    ≡ map mark_of (append_status octets status settings)
unfolding append_status status_head credential_rows status_tail kv router_rows
same_marks = refl

structure-config_pieces_example :
    structure in_text (page_text (config_pieces octets status hostile none))
    ≡ structure in_text (page_text (config_pieces octets status settings none))
structure-config_pieces_example =
    structure-config_pieces octets status status hostile settings none hostile-HasInertAddresses
      settings-HasInertAddresses same_marks refl

tags-form_pieces_example :
    inputs_of [] (tags (page_text (form_pieces octets hostile)))
    ≡ map (λ input. (codes (input.0), input.1)) (form_inputs octets hostile)
tags-form_pieces_example = tags-form_pieces octets hostile hostile-HasInertAddresses

abbrev others : Passwords
others = record {
  uplink_pass = codes "22hunter";
  eap_password = [];
  ap_pass = codes "something";
  admin_pass = codes "else";
}

others-HasLengths : HasLengths others settings
others-HasLengths = record { psk_length = refl; eap_length = refl }

handle-Agree_example :
    Agree strings octets status others
      (handle strings octets to_root (env 1000) (with_cookie []) portal)
      (handle strings octets to_root (env 1000) (with_cookie []) (swap others portal))
handle-Agree_example =
    handle-Agree strings octets status others to_root (env 1000) (with_cookie []) portal refl
      others-HasLengths
