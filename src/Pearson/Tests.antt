-- ===== src/Pearson/Tests.antt =====
-- Runs of the hash, and its theorems at concrete inputs.
use rp_lib_utils.Common.{◌≡◌, ◌≢◌, [], refl, arith, codes}
use rp_lib_utils.Pearson.{pearson8, pearson8_len, pearson8_loop, finish}
use rp_lib_utils.Pearson.Collisions.{pearson8_len-ne}

pearson8_empty : pearson8 [] ≡ 0xf0
unfolding pearson8 pearson8_loop finish
pearson8_empty = refl

pearson8_len-ne_example : pearson8_len (codes "cat") ≢ pearson8_len (codes "cut")
pearson8_len-ne_example =
    pearson8_len-ne (codes "c") (codes "t") b'a' b'u' (omega arith) (omega arith) (omega arith)
      (omega arith) (omega arith)
