-- ===== src/BlockRate.antt =====
-- `greatest_common_divisor` and `block_rate` of spa/plugins/fits/source.c: the rate of row blocks.
pub mod Divisor
pub mod Reduced
mod Examples
use pipewireao_spa_plugin_fi.Base.{
  ℕ, zero, suc, ◌+◌, ◌*◌, ◌/◌, ◌%◌, ◌||◌, ltb, ◌==◌, if◌then◌else◌, u64, u32_max,
}
use pipewireao_spa_plugin_fi.Errno.{Result, ok, err, eoverflow}
use pipewireao_spa_plugin_fi.Rate.{Fraction}

-- The loop with `k` rounds left. The remainder is smaller in each round, so `right + 1` rounds are enough.
unfoldable pub divisor_from : ℕ → ℕ → ℕ → ℕ
divisor_from zero left right = left
divisor_from (suc k) left right =
    let rest = divisor_from k right (left % right) in if right == 0 then left else rest

-- `greatest_common_divisor`
unfoldable pub greatest_common_divisor : ℕ → ℕ → ℕ
greatest_common_divisor left right = divisor_from (right + 1) left right

-- `block_rate`
unfoldable pub block_rate : Fraction → ℕ → Result Fraction
block_rate frame_rate blocks =
    let numerator : ℕ = u64 (frame_rate.num * blocks) in
    let divisor : ℕ = greatest_common_divisor numerator frame_rate.denom in
    let num : ℕ = numerator / divisor in
    let denom : ℕ = frame_rate.denom / divisor in
    if (num == 0) || (ltb u32_max num || ((denom == 0) || ltb u32_max denom))
    then err eoverflow
    else ok (record { num = num; denom = denom })
