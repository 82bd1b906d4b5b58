-- ===== src/Ple/Table/Examples.antt =====
-- Tests of _gather of src/vllm_ple_mmap.py, with an insertion sort for numpy's `unique`.
use qwen3_8_flash_dgx_auto_r.Common.{ℕ, ◌≡◌, refl, List, [], ◌∷◌, some, true, false, arith}
use qwen3_8_flash_dgx_auto_r.Common.Int.{ℤ, pos}
use qwen3_8_flash_dgx_auto_r.Ple.Table.{
  MmapPleTable, ok, err, out_of_range, gather, span_tasks, chunk_tasks, bounds_from, plan_tasks,
  rows_at, row_at,
}
use qwen3_8_flash_dgx_auto_r.Ple.Table.Plan.{}
use qwen3_8_flash_dgx_auto_r.Ple.Table.Sorting.{sorting}
use qwen3_8_flash_dgx_auto_r.Ple.Table.Gather.{gather-rows, gather-outside}

-- Two shards of two rows; a row is a number.
abbrev table : MmapPleTable ℕ
table = record {
  shard_size = 2;
  chunk = 2;
  fast_rows = 2;
  mm = some (10 ∷ 11 ∷ []) ∷ some (12 ∷ 13 ∷ []) ∷ [];
}

abbrev wanted : List ℤ
wanted = pos 3 ∷ pos 0 ∷ pos 3 ∷ []

plan_of_four : plan_tasks table (0 ∷ 1 ∷ 2 ∷ 3 ∷ []) ≡ (0, 0, 2) ∷ (1, 2, 4) ∷ []
unfolding plan_tasks span_tasks chunk_tasks bounds_from
plan_of_four = refl

rows_of_wanted : rows_at table wanted ≡ some (13 ∷ 10 ∷ 13 ∷ [])
unfolding rows_at row_at
rows_of_wanted = refl

gather-rows_example : gather table sorting wanted false ≡ ok (some 13 ∷ some 10 ∷ some 13 ∷ [])
gather-rows_example =
    gather-rows table sorting wanted false (13 ∷ 10 ∷ 13 ∷ []) (omega arith) (omega arith)
      rows_of_wanted

gather-outside_example : gather table sorting (pos 0 ∷ pos 1 ∷ pos 4 ∷ []) true ≡ err out_of_range
gather-outside_example =
    gather-outside table sorting (pos 0 ∷ pos 1 ∷ pos 4 ∷ []) true 2 (pos 4)
      (λ e. (refl, (refl, tt))) refl refl
