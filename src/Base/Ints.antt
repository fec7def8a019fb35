-- ===== src/Base/Ints.antt =====
-- Signed numbers of 64 bits.
use Prim.Native.Nat.{ℕ, ◌-◌}
use frontkeep.Base.Tests.{ltb, if◌then◌else◌}

-- `negsuc n` is -(n + 1).
pub data ℤ : Type 0 where
  pos negsuc : ℕ → ℤ

-- `as i64` of an unsigned number of 64 bits: from 2 ^ 63 on it is negative.
abbrev pub as_i64 : ℕ → ℤ
as_i64 n =
    if ltb n 9_223_372_036_854_775_808 then pos n else negsuc (18_446_744_073_709_551_615 - n)
