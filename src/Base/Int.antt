-- ===== src/Base/Int.antt =====
-- Signed integers, and Go's conversion of a `uint64` to an `int64`.
use data_csi.Base.Tests.{if◌then◌else◌, ltb}
use Prim.Native.Nat.{ℕ, ◌-◌, ◌^◌}

-- `negsuc n` is -(n + 1).
pub data ℤ : Type 0 where
  pos : ℕ → ℤ
  negsuc : ℕ → ℤ

-- `int64(n)` for `n` of type `uint64`: from 2^63 on, the value less 2^64.
unfoldable pub int64 : ℕ → ℤ
int64 n = if ltb n (2 ^ 63) then pos n else negsuc (2 ^ 64 - 1 - n)
