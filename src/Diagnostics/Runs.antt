-- ===== src/Diagnostics/Runs.antt =====
-- What the diagnostics of src/main.cpp run in an iteration, as their notes show it.
use spool_gate.Base.{
  ℕ, ◌≡◌, refl, ap, ◌∙◌, Bool, true, false, ◌&&◌, ◌||◌, List, [], ◌∷◌, ◌++◌, map, Text, arith,
}
use spool_gate.Config.{AddressText}
use spool_gate.Router.{Router}
use spool_gate.Diagnostics.{
  Report, Timers, Selftest, scan_fires, test_fires, ap_fires, status_fires, diagnose, Note, Network,
  Scan, failed, found, scan_networks, scan_delete, resolve, connect_out, line, snapshot, station,
  notes_if, network_line, no_networks, scan_lines, run_scan, run_uplink_self_test, ap_line,
  status_line,
}

-- What the notes of an iteration show to have run in it.
abbrev pub is_scan : Note → Bool
is_scan scan_networks = true
is_scan _ = false

abbrev pub is_test : Note → Bool
is_test connect_out = true
is_test _ = false

abbrev pub is_snapshot : Note → Bool
is_snapshot (snapshot t) = true
is_snapshot _ = false

abbrev pub is_station : Note → Bool
is_station (station t) = true
is_station _ = false

unfoldable pub has : (Note → Bool) → List Note → Bool
has f [] = false
has f (x ∷ xs) = f x || has f xs

-- Whether an iteration runs something.
abbrev pub runs : AddressText → (Note → Bool) → Report → Router → Timers → Bool
runs ips f d r t = has f (diagnose ips d r t).1

or_false : (b : Bool) → (b || false) ≡ b
or_false true = refl
or_false false = refl

has-append : (f : Note → Bool) (xs ys : List Note) → has f (xs ++ ys) ≡ (has f xs || has f ys)
unfolding has
has-append f [] ys = refl
has-append f (x ∷ xs) ys = ground (arith, has-append f xs ys)

has-notes_if :
    (f : Note → Bool) (b : Bool) (xs : List Note) → has f (notes_if b xs) ≡ (b && has f xs)
unfolding has
has-notes_if f true xs = refl
has-notes_if f false xs = refl

has-network_line :
    (f : Note → Bool)
    → ((t : Text) → f (line t) ≡ false)
    → (ws : List Network) → has f (map network_line ws) ≡ false
unfolding has network_line
has-network_line f k [] = refl
has-network_line f k (w ∷ ws) = rw (k _) (has-network_line f k ws)

has-scan_lines :
    (f : Note → Bool)
    → ((t : Text) → f (line t) ≡ false)
    → (now : ℕ) (scan : Scan) → has f (scan_lines now scan) ≡ false
unfolding has scan_lines no_networks
has-scan_lines f k now (failed n) = rw (k _) refl
has-scan_lines f k now (found []) = rw (k _) refl
has-scan_lines f k now (found (w ∷ ws)) = rw (k _) (has-network_line f k (w ∷ ws))

has-run_scan :
    (f : Note → Bool)
    → ((t : Text) → f (line t) ≡ false)
    → (now : ℕ) (scan : Scan) → has f (run_scan now scan) ≡ (f scan_networks || f scan_delete)
unfolding has run_scan
has-run_scan f k now scan =
    ap (λ b. f scan_networks || b)
      (has-append f (scan_lines now scan) (scan_delete ∷ [])
        ∙ rw (has-scan_lines f k now scan) (or_false (f scan_delete)))

has-self_test :
    (f : Note → Bool)
    → ((t : Text) → f (line t) ≡ false)
    → (ips : AddressText) (x : Selftest)
    → has f (run_uplink_self_test ips x) ≡ (f resolve || f connect_out)
unfolding has run_uplink_self_test
has-self_test f k ips x = rw (k _, k _) (ap (λ b. f resolve || b) (or_false (f connect_out)))

has-one : (f : Note → Bool) (x : Note) → has f (x ∷ []) ≡ f x
unfolding has
has-one f x = or_false (f x)

-- What runs in an iteration, from what the four parts of the notes hold.
has-diagnose :
    (ips : AddressText) (f : Note → Bool) (d : Report) (r : Router) (t : Timers)
    → ((t : Text) → f (line t) ≡ false)
    → runs ips f d r t ≡ (
        (scan_fires d r t && (f scan_networks || f scan_delete))
        || ((test_fires d r t && (f resolve || f connect_out))
            || ((ap_fires d r t && f (ap_line ips d.ap r))
                || (status_fires d r t && f (status_line d.status_now d.status)))))
unfolding diagnose
has-diagnose ips f d r t k =
    rw
      (
        has-append f (notes_if (scan_fires d r t) (run_scan d.scan_now d.scan)) _,
        has-append f (notes_if (test_fires d r t) (run_uplink_self_test ips d.self_test)) _,
        has-append f (notes_if (ap_fires d r t) (ap_line ips d.ap r ∷ [])) _,
        has-notes_if f (scan_fires d r t) (run_scan d.scan_now d.scan),
        has-notes_if f (test_fires d r t) (run_uplink_self_test ips d.self_test),
        has-notes_if f (ap_fires d r t) (ap_line ips d.ap r ∷ []),
        has-notes_if f (status_fires d r t) (status_line d.status_now d.status ∷ []),
        has-run_scan f k d.scan_now d.scan,
        has-self_test f k ips d.self_test,
        has-one f (ap_line ips d.ap r),
        has-one f (status_line d.status_now d.status),
      )
      refl

pub runs-scan :
    (ips : AddressText) (d : Report) (r : Router) (t : Timers)
    → runs ips is_scan d r t ≡ scan_fires d r t
unfolding ap_line status_line
runs-scan ips d r t = has-diagnose ips is_scan d r t (λ t. refl) ∙ ground arith

pub runs-test :
    (ips : AddressText) (d : Report) (r : Router) (t : Timers)
    → runs ips is_test d r t ≡ test_fires d r t
unfolding ap_line status_line
runs-test ips d r t = has-diagnose ips is_test d r t (λ t. refl) ∙ ground arith

pub runs-snapshot :
    (ips : AddressText) (d : Report) (r : Router) (t : Timers)
    → runs ips is_snapshot d r t ≡ ap_fires d r t
unfolding ap_line status_line
runs-snapshot ips d r t = has-diagnose ips is_snapshot d r t (λ t. refl) ∙ ground arith

pub runs-station :
    (ips : AddressText) (d : Report) (r : Router) (t : Timers)
    → runs ips is_station d r t ≡ status_fires d r t
unfolding ap_line status_line
runs-station ips d r t = has-diagnose ips is_station d r t (λ t. refl) ∙ ground arith
