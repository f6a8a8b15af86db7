-- ===== src/Base/Octets.antt =====
-- `IPAddress`: four octets.
use Prim.Native.Nat.{ℕ}
use mathlib.Core.Bool.{Bool, ◌&&◌}
use spool_gate.Base.Tests.{◌==◌}
use spool_gate.Base.Words.{IsByte}

pub record Address : Type 0 where
  pub a : ℕ
  pub b : ℕ
  pub c : ℕ
  pub d : ℕ

pub record IsAddress (ip : Address) : Type 0 where
  pub a_byte : IsByte ip.a
  pub b_byte : IsByte ip.b
  pub c_byte : IsByte ip.c
  pub d_byte : IsByte ip.d

abbrev pub unset : Address
unset = record { a = 0; b = 0; c = 0; d = 0 }

-- `static_cast<uint32_t>(ip) == 0`
abbrev pub is_unset : Address → Bool
is_unset ip = ip.a == 0 && (ip.b == 0 && (ip.c == 0 && ip.d == 0))
