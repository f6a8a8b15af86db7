-- ===== src/Tests/Lives.antt =====
-- Lives of the whole board: a saved form, its restart, and power cuts.
use spool_gate.Base.{
  ◌≡◌, refl, true, none, some, List, [], ◌∷◌, Address, arith, replicate, inl, not, ◌==◌, ◌+◌,
  u32_mod, text_eq,
}
use spool_gate.Config as Config
use spool_gate.Watchdog.{power_on}
use spool_gate.Router.Events.{sta_have_ip}
use spool_gate.Portal.{Request}
use spool_gate.Portal.Access.{from_lan, authed, cookie_matches, session_of, cut_semi}
use spool_gate.Portal.Form.{apply_form, check_form}
use spool_gate.Portal.Handlers.{restart_due}
use spool_gate.Board.{
  Boot, Board, Moment, passes, events, pings, supervises, power_cuts, up_replies, power_up,
  fresh_portal, happen, live,
}
use spool_gate.Board.Stored.{begin-live}
use spool_gate.Board.Uplink.{live-Link, HasLink}
use spool_gate.Board.Restart.{save-applies, Saves, restart_due-wrap}
use spool_gate.Tests.Flash.{flash, octets, secrets, settings, blank_flash}
use spool_gate.Tests.Form.{strings}
use spool_gate.Tests.Admin.{portal, env, dispatch, with_cookie, portal-InStep}
use spool_gate.Tests.Uplinks.{at_time, powered}

abbrev boot : Boot
boot = record {
  secrets = secrets;
  reason = power_on;
  created = true;
  watchdog_now = 300;
  watchdog_mark = 300;
  ap_ok = true;
  start_now = 700;
}

abbrev router_ip : Address
router_ip = record { a = 10; b = 1; c = 2; d = 3 }

abbrev resolver : Address
resolver = record { a = 1; b = 1; c = 1; d = 1 }

abbrev request : Request
request = with_cookie (replicate 32 b'a')

abbrev life : List Moment
life =
    passes dispatch (at_time 1000) none 1000 boot
    ∷ events 1200 1200 (sta_have_ip router_ip resolver resolver 6)
    ∷ power_cuts boot
    ∷ pings up_replies
    ∷ supervises 400000 boot
    ∷ []

begin-live_example :
    let b = live strings octets flash life (power_up strings octets flash boot blank_flash) in
    (Config.begin flash octets secrets b.flash).0 ≡ b.portal.settings
begin-live_example = begin-live strings octets flash boot blank_flash life secrets (inl refl)

live-Link_example :
    HasLink
      (live strings octets flash life
        (power_up strings octets flash boot blank_flash)).system.router
live-Link_example = live-Link strings octets flash boot blank_flash life

abbrev board : Board strings octets flash
board = record {
  system = powered;
  portal = portal;
  flash = Config.save flash octets settings blank_flash;
}

request-Saves : Saves strings octets flash dispatch (env 10000) request portal router_ip resolver
unfolding from_lan authed cookie_matches check_form session_of cut_semi text_eq
request-Saves = record {
  on_lan = refl;
  signed_in = refl;
  routed = refl;
  form = record { passed = refl; names = (refl, refl, refl); addresses = (refl, refl) };
}

abbrev meanwhile : List Moment
meanwhile = pings up_replies ∷ passes dispatch (at_time 11400) none 11400 boot ∷ []

save-applies_example :
    let n = apply_form strings octets request router_ip resolver settings in
    let b₁ =
      happen strings octets flash
        (passes dispatch (at_time 9999) (some (env 10000, request)) 10000 boot)
        board in
    let b₂ = live strings octets flash meanwhile b₁ in
    (b₁.portal.settings ≡ n)
    × (b₂.portal ≡ b₁.portal)
    × ((happen strings octets flash (passes dispatch (at_time 11501) none 11501 boot) b₂).portal
        ≡ fresh_portal n)
save-applies_example =
    save-applies strings octets flash dispatch (at_time 9999) (at_time 11501) (env 10000) request
      10000 11501 boot boot meanwhile board router_ip resolver portal-InStep request-Saves
      (omega arith) refl (refl, (refl, tt)) (omega arith)

-- A form that is saved exactly 1.5 s before the wrap.
restart_due-wrap_example :
    restart_due 4294967000 (record portal { reboot_at_ms = 0 }) ≡ not (4294965796 + 1500 == u32_mod)
restart_due-wrap_example =
    restart_due-wrap 4294965796 4294967000 (record portal { reboot_at_ms = 0 }) (omega arith)
      (omega arith) refl (omega arith)
