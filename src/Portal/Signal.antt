-- ===== src/Portal/Signal.antt =====
-- What `clientRssi` of src/web/portal.cpp finds: the best signal among the clients.
use mathlib.Core.List.{Memᴰ}
use mathlib.Core.List.Memᴰ.{head, tail}
use spool_gate.Base.{
  ◌≡◌, refl, Bool, true, false, some, List, [], ◌∷◌, if◌then◌else◌, ℤ, pos, negsuc, int_ltb, arith,
  All, inl, inr, Bool-cases,
}
use spool_gate.Portal.StatJson.{best_of, client_rssi}

int_ltb_refl : (a : ℤ) → int_ltb a a ≡ false
int_ltb_refl (pos n) = ground arith
int_ltb_refl (negsuc n) = ground arith

-- What is not above `b`, which is not above `c`, is not above `c`.
int_ltb_trans : (a b c : ℤ) → int_ltb b a ≡ false → int_ltb c b ≡ false → int_ltb c a ≡ false
int_ltb_trans a b c h k = ground arith

int_ltb_asymm : (a b : ℤ) → int_ltb a b ≡ true → int_ltb b a ≡ false
int_ltb_asymm a b h = ground arith

-- `b` is not below any of the signals.
abbrev pub IsTop : ℤ → List ℤ → Type 0
IsTop b = All (λ a. int_ltb b a ≡ false)

-- One round of the loop: what is above the better of two is above both.
above_both :
    (best r : ℤ) (rs : List ℤ) (b : Bool)
    → int_ltb best r ≡ b
    → let better = if b then r else best in
      IsTop (best_of better rs) (better ∷ rs) → IsTop (best_of better rs) (best ∷ r ∷ rs)
above_both best r rs true e h =
    (int_ltb_trans best r (best_of r rs) (int_ltb_asymm best r e) h.0, h)
above_both best r rs false e h = (h.0, (int_ltb_trans r best (best_of best rs) e h.0, h.1))

best_of-above : (best : ℤ) (rs : List ℤ) → IsTop (best_of best rs) (best ∷ rs)
unfolding best_of
best_of-above best [] = (int_ltb_refl best, tt)
best_of-above best (r ∷ rs) =
    above_both best r rs (int_ltb best r) refl
      (best_of-above (if int_ltb best r then r else best) rs)

best_of-among : (best : ℤ) (rs : List ℤ) → Memᴰ (best_of best rs) (best ∷ rs)
unfolding best_of
best_of-among best [] = head refl
best_of-among best (r ∷ rs) = elim (Bool-cases (int_ltb best r)) [
  | inl better ↦ rw better (tail (best_of-among r rs))
  | inr worse ↦ rw worse (past_second (best_of-among best rs))
]
  where
    past_second : {a b c : ℤ} {l : List ℤ} → Memᴰ a (b ∷ l) → Memᴰ a (b ∷ c ∷ l)
    past_second (head e) = head e
    past_second (tail m) = tail (tail m)

-- With clients associated, the signal that is shown is one of theirs, or -127 if all are at most that,
-- and none is above it.
pub client_rssi-best :
    (r : ℤ) (rs : List ℤ)
    → let best = client_rssi (some (r ∷ rs)) in
      Memᴰ best (negsuc 126 ∷ r ∷ rs) × IsTop best (negsuc 126 ∷ r ∷ rs)
unfolding client_rssi
client_rssi-best r rs = (best_of-among (negsuc 126) (r ∷ rs), best_of-above (negsuc 126) (r ∷ rs))
