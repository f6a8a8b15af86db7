-- ===== src/Base/Words.antt =====
-- The C integer types as native numbers: `uint32_t` sums and differences, wrapped as the C does.
use Prim.Native.Nat.{ℕ, ◌+◌, ◌-◌, ◌%◌, ◌<◌}
use mathlib.Core.Path.{◌≡◌}
use native.Mathlib.Omega.{arith}

abbrev pub u32_mod : ℕ
u32_mod = 4294967296

-- `a + b` on `uint32_t`
abbrev pub add32 : ℕ → ℕ → ℕ
add32 a b = (a + b) % u32_mod

-- `a - b` on `uint32_t`
abbrev pub sub32 : ℕ → ℕ → ℕ
sub32 a b = (a + u32_mod - b) % u32_mod

abbrev pub IsU32 : ℕ → Type 0
IsU32 n = n < u32_mod

abbrev pub IsByte : ℕ → Type 0
IsByte n = n < 256

-- Across a wrap of the clock the unsigned difference is the time that went by.
pub sub32-add32 : (t d : ℕ) → IsU32 t → IsU32 d → sub32 (add32 t d) t ≡ d
sub32-add32 t d ht hd = omega arith
