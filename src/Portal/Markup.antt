-- ===== src/Portal/Markup.antt =====
-- The markup that the pages of src/web/portal.cpp share: a page is built piece by piece, each of them a
-- literal of the code or a value that is put between two of them.
use spool_gate.Base.{List, [], ◌∷◌, ◌++◌, Text, String, codes}

pub data Piece : Type 0 where
  markup : String → Piece  -- a literal in ASCII
  raw : Text → Piece  -- a literal by its bytes
  value : Text → Piece

-- What the `String` holds at the end.
unfoldable pub page_text : List Piece → Text
page_text [] = []
page_text (markup t ∷ ps) = codes t ++ page_text ps
page_text (raw t ∷ ps) = t ++ page_text ps
page_text (value t ∷ ps) = t ++ page_text ps

-- `kCss`
unfoldable pub css : List Piece
css =
    markup "<style>"
    ∷ markup "*{box-sizing:border-box}"
    ∷ markup "body{font-family:system-ui,-apple-system,Segoe UI,Roboto,sans-serif;margin:0;"
    ∷ markup "background:#0f1115;color:#e6e6e6;line-height:1.5}"
    ∷ markup ".wrap{max-width:560px;margin:0 auto;padding:24px 18px 60px}"
    ∷ markup "h1{font-size:20px;margin:8px 0 2px}.sub{color:#8b93a1;font-size:13px;margin:0 0 22px}"
    ∷ markup "h2{font-size:14px;text-transform:uppercase;letter-spacing:.04em;color:#8b93a1;"
    ∷ markup "border-bottom:1px solid #2a2f3a;padding-bottom:6px;margin:26px 0 12px}"
    ∷ markup "label{display:block;font-size:13px;margin:12px 0 4px;color:#c7ccd6}"
    ∷ markup "input,select{width:100%;padding:10px 12px;border:1px solid #2a2f3a;border-radius:8px;"
    ∷ markup "background:#171a21;color:#e6e6e6;font-size:15px}"
    ∷ markup "input:focus,select:focus{outline:none;border-color:#3b82f6}"
    ∷ markup ".hint{font-size:12px;color:#8b93a1;margin:4px 0 0}"
    ∷ markup "button{width:100%;margin-top:22px;padding:12px;border:0;border-radius:8px;"
    ∷ markup "background:#3b82f6;color:#fff;font-size:15px;font-weight:600;cursor:pointer}"
    ∷ markup "button.alt{background:#2a2f3a;margin-top:10px}"
    ∷ markup ".msg{padding:10px 12px;border-radius:8px;margin:0 0 16px;font-size:14px}"
    ∷ markup ".err{background:#3b1d1d;border:1px solid #7f1d1d;color:#fca5a5}"
    ∷ markup ".ok{background:#14321f;border:1px solid #166534;color:#86efac}"
    ∷ markup ".row{display:flex;gap:10px}.row>div{flex:1}"
    ∷ markup "a{color:#60a5fa}"
    ∷ markup ".tabs{display:flex;gap:6px;margin:18px 0 8px}"
    ∷ markup
        ".tab{flex:1;width:auto;margin-top:0;padding:9px;border:1px solid #2a2f3a;border-radius:8px;"
    ∷ markup "background:#171a21;color:#c7ccd6;font-size:14px;font-weight:500;cursor:pointer}"
    ∷ markup ".tab.active{background:#3b82f6;border-color:#3b82f6;color:#fff}"
    ∷ markup ".pane{display:none}"
    ∷ markup "input[type=range]{padding:0;height:28px}"
    ∷ markup ".big{font-size:22px;font-weight:600}"
    ∷ markup ".kv{display:flex;justify-content:space-between;gap:12px;padding:6px 0;"
    ∷ markup "border-bottom:1px solid #1c212b;font-size:13px}"
    ∷ markup ".kv span{color:#8b93a1}.kv b{font-weight:600;text-align:right;word-break:break-all}"
    ∷ markup ".up{color:#86efac}.down{color:#fca5a5}"
    ∷ markup "pre.log{background:#0a0c10;border:1px solid #2a2f3a;border-radius:8px;padding:12px;"
    ∷ markup "font:12px/1.45 ui-monospace,SFMono-Regular,Consolas,monospace;color:#c7ccd6;"
    ∷ markup "white-space:pre-wrap;word-break:break-word;max-height:62vh;overflow-y:auto;margin:0}"
    ∷ markup "</style>"
    ∷ []

-- A title starts with the name of the program and an em dash in UTF-8.
abbrev em_dash : Text
em_dash = 0xe2 ∷ 0x80 ∷ 0x94 ∷ []

unfoldable pub page_head : String → List Piece
unfolding css
page_head name =
    markup "<!doctype html><html><head><meta charset=utf-8>"
    ∷ markup "<meta name=viewport content=\"width=device-width,initial-scale=1\"><title>"
    ∷ markup "SpoolGate "
    ∷ raw em_dash
    ∷ markup name
    ∷ markup "</title>"
    ∷ (css ++ (markup "</head><body><div class=wrap>" ∷ []))

unfoldable pub page_foot : List Piece
page_foot = markup "</div></body></html>" ∷ []
