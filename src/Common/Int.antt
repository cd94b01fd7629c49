-- ===== src/Common/Int.antt =====
-- Signed integers (Go's int32 and int64 values), `negsuc n` for -(n + 1), and their order.
use Prim.Native.Nat.{ℕ, ◌+◌, compare, Ordering}
use mathlib.Core.Path.{◌≡◌}
use mathlib.Core.Bool.{Bool, true, false}
use native.Mathlib.Omega.{arith}
use qf.Common.Tests.{if◌then◌else◌}

pub data ℤ : Type 0 where
  pos : ℕ → ℤ
  negsuc : ℕ → ℤ

-- `a + 1` and `a - 1`.
abbrev pub inc : ℤ → ℤ
inc (pos n) = pos (n + 1)
inc (negsuc ℕ.zero) = pos 0
inc (negsuc (ℕ.suc n)) = negsuc n

abbrev pub dec : ℤ → ℤ
dec (pos ℕ.zero) = negsuc 0
dec (pos (ℕ.suc n)) = pos n
dec (negsuc n) = negsuc (n + 1)

-- `a < b`.
abbrev pub ltb_ℤ : ℤ → ℤ → Bool
ltb_ℤ (pos a) (pos b) = elim (compare a b) [ Ordering.lt ↦ true | _ ↦ false ]
ltb_ℤ (pos a) (negsuc b) = false
ltb_ℤ (negsuc a) (pos b) = true
ltb_ℤ (negsuc a) (negsuc b) = elim (compare b a) [ Ordering.lt ↦ true | _ ↦ false ]

-- `a == b`.
abbrev pub eqb_ℤ : ℤ → ℤ → Bool
eqb_ℤ a b = if ltb_ℤ a b then false else if ltb_ℤ b a then false else true

pub ltb_ℤ_trans : (a b c : ℤ) → ltb_ℤ b a ≡ false → ltb_ℤ c b ≡ false → ltb_ℤ c a ≡ false
ltb_ℤ_trans a b c h k = ground arith

pub ltb_ℤ_asymm : (a b : ℤ) → ltb_ℤ a b ≡ true → ltb_ℤ b a ≡ false
ltb_ℤ_asymm a b h = ground arith

pub ltb_ℤ_connected : (a b : ℤ) → ltb_ℤ a b ≡ false → ltb_ℤ b a ≡ false → a ≡ b
ltb_ℤ_connected a b h k = ground arith
