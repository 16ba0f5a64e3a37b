-- ===== src/Prelude/Int.antt =====
-- Signed integers, for Go's `time.Duration` where a difference of times may be negative.
use Prim.Native.Nat.{ℕ, ◌-◌}
use pharos_host_upgrades.Prelude.Tests.{leb, if◌then◌else◌}

-- `negsuc n` is -(n + 1).
pub data ℤ : Type 0 where
  pos : ℕ → ℤ
  negsuc : ℕ → ℤ

abbrev pub sub_ℕ : ℕ → ℕ → ℤ
sub_ℕ a b = if leb b a then pos (a - b) else negsuc (b - a - 1)
