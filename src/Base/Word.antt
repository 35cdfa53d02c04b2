-- ===== src/Base/Word.antt =====
-- The unsigned machine words of the C code as native numbers, with their wrap-around written out.
use Prim.Native.Nat.{ℕ, ◌+◌, ◌-◌, ◌%◌, ◌^◌}

abbrev pub u32 : ℕ → ℕ
u32 n = n % 2 ^ 32

abbrev pub u64 : ℕ → ℕ
u64 n = n % 2 ^ 64

-- `__uint128_t`
abbrev pub u128 : ℕ → ℕ
u128 n = n % 2 ^ 128

-- `a - b` on uint64_t; `-` on ℕ stops at 0, so the modulus is added first.
abbrev pub sub64 : ℕ → ℕ → ℕ
sub64 a b = (a + 2 ^ 64 - b) % 2 ^ 64

abbrev pub u32_max : ℕ
u32_max = 2 ^ 32 - 1

abbrev pub i32_max : ℕ
i32_max = 2 ^ 31 - 1

-- `UINT64_MAX`, and `SIZE_MAX` on the 64-bit targets.
abbrev pub u64_max : ℕ
u64_max = 2 ^ 64 - 1

-- `LONGLONG_MAX` of CFITSIO.
abbrev pub longlong_max : ℕ
longlong_max = 2 ^ 63 - 1

-- `SPA_NSEC_PER_SEC`
abbrev pub nsec_per_sec : ℕ
nsec_per_sec = 1_000_000_000
