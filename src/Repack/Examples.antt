-- ===== src/Repack/Examples.antt =====
-- Tests of the runs of tools/quantize_lm_head_int8.py, on a head of one number.
use qwen3_8_flash_dgx_auto_r.Common.{ℕ, suc, true, false, List, [], ◌∷◌, none, get_or}
use qwen3_8_flash_dgx_auto_r.Repack.{Dir, run, main}
use qwen3_8_flash_dgx_auto_r.Repack.Resume.{
  Attempt, attempts, untouched, dir_at, dir_at-IsKept, IsKept, IsFinished, attempts-IsKept,
  attempts-main-IsFinished,
}

-- Cut off between the rename and the swap, then a whole dry run.
abbrev two_runs : List Attempt
two_runs =
    record { dry_run = false; shard_given = false; operations = 3 }
    ∷ record { dry_run = true; shard_given = true; operations = 9 }
    ∷ []

abbrev checkpoint : Dir ℕ ℕ ℕ
checkpoint = dir_at suc 7 0 untouched none none

attempts-IsKept_example : IsKept suc 7 0 (attempts suc two_runs checkpoint)
attempts-IsKept_example =
    attempts-IsKept suc 7 0 two_runs checkpoint (dir_at-IsKept suc 7 0 untouched none none)

attempts-main-IsFinished_example :
    let d = attempts suc two_runs checkpoint in
    IsFinished suc 7 0 (run d (get_or (main suc false false d) []))
attempts-main-IsFinished_example = attempts-main-IsFinished suc 7 0 two_runs none none
