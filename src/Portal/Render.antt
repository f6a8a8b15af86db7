-- ===== src/Portal/Render.antt =====
-- What src/web/portal.cpp hands to `server.send` for each kind of body.
use spool_gate.Base.{Text, [], codes, replicate}
use spool_gate.Config.{AddressText}
use spool_gate.Portal.{
  Body, plain, login_page, config_page, saved_page, log_page, speed_page, log_text, json, filler,
  nothing,
}
use spool_gate.Portal.Markup.{page_text}
use spool_gate.Portal.Page.{Status}
use spool_gate.Portal.Pages.{login_pieces, saved_pieces, log_pieces, speed_pieces}
use spool_gate.Portal.ConfigPage.{config_pieces}

-- The bytes of a body; `st` is the state of the system while a settings page is built.
unfoldable pub body_text : AddressText → Status → Body → Text
body_text ips st (plain message) = codes message
body_text ips st (login_page error) = page_text (login_pieces error)
body_text ips st (config_page s error) = page_text (config_pieces ips st s error)
body_text ips st saved_page = page_text saved_pieces
body_text ips st log_page = page_text log_pieces
body_text ips st speed_page = page_text speed_pieces
body_text ips st (log_text t) = t
body_text ips st (json t) = t
body_text ips st (filler n) = replicate n b'x'
body_text ips st nothing = []
