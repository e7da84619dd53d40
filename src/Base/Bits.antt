-- ===== src/Base/Bits.antt =====
-- Shifts, masks and joined fields of machine words, in the form that the arithmetic tactics read.
use Prim.Native.Nat.{ℕ, ◌+◌, ◌*◌, ◌/◌, ◌%◌, ◌^◌, ◌<◌}

-- `x >> k`, and `x & (1<<k - 1)`.
abbrev pub shr : ℕ → ℕ → ℕ
shr x k = x / 2 ^ k

abbrev pub low_bits : ℕ → ℕ → ℕ
low_bits x k = x % 2 ^ k

-- `uint16(x)`, and `x << k` on a uint16.
abbrev pub to_u16 : ℕ → ℕ
to_u16 x = x % 2 ^ 16

abbrev pub shl16 : ℕ → ℕ → ℕ
shl16 x k = x * 2 ^ k % 2 ^ 16

abbrev pub IsU16 : ℕ → Type 0
IsU16 x = x < 2 ^ 16

-- `hi | lo` where `hi` has no bit in the places that `lo` may use: the sum.
abbrev pub join_bits : ℕ → ℕ → ℕ
join_bits hi lo = hi + lo

-- `c.f++` on a uint64 counter.
abbrev pub inc_u64 : ℕ → ℕ
inc_u64 x = (x + 1) % 2 ^ 64
