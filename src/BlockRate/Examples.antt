-- ===== src/BlockRate/Examples.antt =====
-- A rate of 30000/1001 frames a second in blocks.
use pipewireao_spa_plugin_fi.Base.{ℕ, ◌≤◌, ◌*◌, ◌/◌, ◌≡◌, ◌<◌, refl, ◌⊎◌, arith, u32_max}
use pipewireao_spa_plugin_fi.Errno.{ok, err, eoverflow}
use pipewireao_spa_plugin_fi.Rate.{Fraction, IsRate}
use pipewireao_spa_plugin_fi.BlockRate.{divisor_from, greatest_common_divisor, block_rate}
use pipewireao_spa_plugin_fi.BlockRate.Divisor.{IsGreatest, Loops, greatest_common_divisor-ends}
use pipewireao_spa_plugin_fi.BlockRate.Reduced.{IsBlockRate, block_rate-IsBlockRate}

abbrev ntsc : Fraction
ntsc = record { num = 30000; denom = 1001 }

ntsc-IsRate : IsRate ntsc
ntsc-IsRate = record {
  num_pos = omega arith;
  num_word = omega arith;
  denom_pos = omega arith;
  denom_word = omega arith;
  period_pos = omega arith;
}

in_lowest_terms : block_rate ntsc 22 ≡ ok (record { num = 60000; denom = 91 })
unfolding block_rate greatest_common_divisor divisor_from
in_lowest_terms = refl

too_fast : block_rate ntsc 1000000000 ≡ err eoverflow
unfolding block_rate greatest_common_divisor divisor_from
too_fast = refl

block_rate-IsBlockRate_example :
    ((block_rate ntsc 22 ≡ err eoverflow)
      × (u32_max < ntsc.num * 22 / greatest_common_divisor (ntsc.num * 22) ntsc.denom))
    ⊎ ((r : Fraction) × (block_rate ntsc 22 ≡ ok r) × IsBlockRate ntsc 22 r)
block_rate-IsBlockRate_example =
    block_rate-IsBlockRate ntsc 22 ntsc-IsRate (omega arith) (omega arith)

greatest_common_divisor-ends_example :
    ((n : ℕ) × (n ≤ 1001) × Loops n 660000 1001 (greatest_common_divisor 660000 1001))
    × IsGreatest 660000 1001 (greatest_common_divisor 660000 1001)
greatest_common_divisor-ends_example = greatest_common_divisor-ends 660000 1001
