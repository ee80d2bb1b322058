-- ===== src/Base/Int.antt =====
-- Integers over the native numbers, as far as the unread counter needs them.
use Prim.Native.Nat.{ℕ, zero, suc, ◌+◌, ◌-◌}

pub data ℤ : Type 0 where
  pos : ℕ → ℤ
  negsuc : ℕ → ℤ

-- `-n`
abbrev pub neg : ℕ → ℤ
neg zero = pos 0
neg (suc n) = negsuc n

-- `max(0, total + amount)`
abbrev pub add_clamped : ℕ → ℤ → ℕ
add_clamped total (pos n) = total + n
add_clamped total (negsuc n) = total - suc n
