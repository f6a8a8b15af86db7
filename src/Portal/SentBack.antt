-- ===== src/Portal/SentBack.antt =====
-- The settings form from its bytes to what is saved of the form that comes back: `appendConfigForm` and
-- `handleSave` of src/web/portal.cpp around a browser.
use spool_gate.Base.{◌≡◌, refl, ap, ◌∙◌, List, [], ◌∷◌, map, Text, String, codes, All}
use spool_gate.Config.{AddressText}
use spool_gate.Portal.{Strings, Request, Portal, Env, saved_page}
use spool_gate.Portal.Form.{save_form}
use spool_gate.Portal.Page.{form_inputs}
use spool_gate.Portal.ConfigPage.{form_pieces}
use spool_gate.Portal.Markup.{page_text}
use spool_gate.Portal.Reader.{tags, inputs_of}
use spool_gate.Portal.Tame.{HasInertAddresses}
use spool_gate.Portal.FormText.{tags-form_pieces}
use spool_gate.Portal.Resubmit.{Browser, Passable, resubmit, save_form-resubmit}

abbrev pub form_names : List String
form_names =
    "uSsid" ∷ "uAuth" ∷ "uPass" ∷ "eapId" ∷ "eapUser" ∷ "eapPass" ∷ "apSsid" ∷ "apPass" ∷ "apIp"
    ∷ "dns" ∷ "ledBri" ∷ "admUser" ∷ "admPass" ∷ []

-- How the web server reads the name of an argument, as an interface: what is used is that the names of
-- the form come back as they are.
pub record Names : Type 0 where
  pub read_name : Text → String
  pub read_name-codes : All (λ n. read_name (codes n) ≡ n) form_names

module _ (strings : Strings) (ips : AddressText) (browser : Browser) (names : Names) where
  open browser use {read}
  open names use {read_name, read_name-codes}

  -- What the server takes from a form that a browser sends, from the bytes of the form.
  abbrev pub sent_back : List (Text × Text) → List (String × Text)
  sent_back inputs = map (λ input. (read_name (input.0), read (input.1))) inputs

  sent_back-named :
      (inputs : List (String × Text))
      → All (λ input. read_name (codes (input.0)) ≡ input.0) inputs
      → sent_back (map (λ input. (codes (input.0), input.1)) inputs)
        ≡ map (λ input. (input.0, read (input.1))) inputs
  sent_back-named [] h = refl
  sent_back-named (input ∷ inputs) h = λ i. (h.0 i, read (input.1)) ∷ sent_back-named inputs (h.1) i

  -- A browser that reads the settings form from its bytes and sends every input back as it found it
  -- changes nothing: the form is accepted, and exactly the settings as they are, passwords included, are
  -- saved, if they pass the checks of the form, the names have no white space around them, and the two
  -- addresses print without bytes of the markup.
  pub save_form-sent_back :
      (env : Env) (q : Request) (p : Portal)
      → Passable strings ips browser p.settings
      → HasInertAddresses ips p.settings
      → q.args ≡ sent_back (inputs_of [] (tags (page_text (form_pieces ips p.settings))))
      → let r = save_form strings ips env q p in
        (r.0.settings ≡ p.settings) × (r.1.saves ≡ p.settings ∷ []) × (r.1.body ≡ saved_page)
  unfolding form_inputs
  save_form-sent_back env q p k h e =
      let args =
        e
        ∙ (ap sent_back (tags-form_pieces ips p.settings h)
            ∙ sent_back-named (form_inputs ips p.settings) read_name-codes) in
      let same : q ≡ resubmit strings ips browser q p.settings = λ i. record q { args = args i } in
      let (kept, saved, answered) = save_form-resubmit strings ips browser env q p k in
      (
        ap (λ x. (save_form strings ips env x p).0.settings) same ∙ kept,
        ap (λ x. (save_form strings ips env x p).1.saves) same ∙ saved,
        ap (λ x. (save_form strings ips env x p).1.body) same ∙ answered,
      )
