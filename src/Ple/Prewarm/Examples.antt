-- ===== src/Ple/Prewarm/Examples.antt =====
-- Tests of prewarm of src/vllm_ple_mmap.py: a file of 10 bytes, of which the second shard has
-- more; the first ends at byte 6 of it, and the reads end at byte 4.
use qwen3_8_flash_dgx_auto_r.Common.{
  ℕ, ◌-◌, ◌≡◌, min, List, [], ◌∷◌, Option, none, some, refl, arith,
}
use qwen3_8_flash_dgx_auto_r.Ple.Prewarm.{Mapping, Reader, read_loop, prewarm_shard, prewarm}
use qwen3_8_flash_dgx_auto_r.Ple.Prewarm.Ends.{IsBounded, AllStop, prewarm-AllStop}

-- At most three bytes at a time.
abbrev reader : Reader
reader pos n = min (min n 3) (10 - pos)

abbrev shards : List (Option (Reader × Mapping))
shards =
    some (reader, record { offset = 2; rows = 2; row_bytes = 2 })
    ∷ none
    ∷ some (reader, record { offset = 2; rows = 6; row_bytes = 2 })
    ∷ []

prewarm_test : prewarm 4 shards ≡ some (4 ∷ 10 ∷ [])
unfolding prewarm prewarm_shard read_loop
prewarm_test = refl

bounded : IsBounded reader
bounded pos n = ground arith

prewarm-AllStop_example : (ends : List ℕ) × (prewarm 4 shards ≡ some ends) × AllStop 4 shards ends
prewarm-AllStop_example = prewarm-AllStop 4 shards (bounded, (tt, (bounded, tt)))
