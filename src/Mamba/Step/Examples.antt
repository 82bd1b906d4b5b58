-- ===== src/Mamba/Step/Examples.antt =====
-- Tests of a step of src/mamba_utils_guarded.py, with blocks of four tokens.
use qwen3_8_flash_dgx_auto_r.Common.{
  ℕ, ◌≡◌, refl, true, false, List, [], ◌∷◌, Option, none, some, ◌==◌, ltb, if◌then◌else◌, map, keys,
  elem, distinct, lookup, ℕ_discrete, arith,
}
use qwen3_8_flash_dgx_auto_r.Common.Int.{ℤ, pos}
use qwen3_8_flash_dgx_auto_r.Mamba.Columns.{Columns, Staged, preprocess_mamba, new_idx}
use qwen3_8_flash_dgx_auto_r.Mamba.Layout.{Context}
use qwen3_8_flash_dgx_auto_r.Mamba.Kernels.{Slots, Launch}
use qwen3_8_flash_dgx_auto_r.Mamba.Kernels.Resets.{stays_put}
use qwen3_8_flash_dgx_auto_r.Mamba.Launch.{Runner}
use qwen3_8_flash_dgx_auto_r.Mamba.Step.{
  stage_postprocess_inputs_to_gpu, postprocess_mamba_align_gpu,
}
use qwen3_8_flash_dgx_auto_r.Mamba.Step.Ready.{
  inputs, preprocess-stage, postprocess_mamba_align_gpu-counts,
}
use qwen3_8_flash_dgx_auto_r.Mamba.Layout.{initialize}
use qwen3_8_flash_dgx_auto_r.Mamba.Layout.Safety.{initialize-again}

abbrev computed : ℕ → ℕ
computed req = if req == 7 then 4 else 0

abbrev scheduled : ℕ → ℕ
scheduled req = 3

abbrev drafts : ℕ → Option (List ℕ)
drafts req = if req == 7 then some (5 ∷ 6 ∷ []) else none

abbrev columns : Columns
columns = (7, pos 0) ∷ []

abbrev batch : List (ℕ × ℕ)
batch = (7, 2) ∷ (8, 1) ∷ []

-- A request that was not prepared.
missing_test : stage_postprocess_inputs_to_gpu scheduled computed drafts columns (8 ∷ []) ≡ none
unfolding stage_postprocess_inputs_to_gpu lookup ℕ_discrete
missing_test = refl

once : distinct ℕ_discrete (keys batch) ≡ true
unfolding distinct elem ℕ_discrete
once = refl

preprocess-stage_example :
    (d' : Columns) × (ss : List Staged) × (preprocess_mamba 4 2 computed scheduled columns batch
      ≡ some (d', ss))
    × (stage_postprocess_inputs_to_gpu scheduled computed drafts d' (keys batch)
        ≡ some
            (map (inputs scheduled computed drafts (new_idx 4 2 computed scheduled)) (keys batch)))
preprocess-stage_example =
    preprocess-stage scheduled computed drafts 4 2 batch columns once
      (omega arith, (omega arith, tt))

abbrev context : Context
context = record {
  states =
      (
        record {
          base_addr = 1000;
          block_stride = 64;
          elem_size = 2;
          inner_size = 8;
          conv_width = 0;
          dim_rows = 0;
          row_stride = 0;
          num_blocks = 3;
        },
        0,
      )
      ∷ [];
  block_table_stride_req = 64;
  block_tables = [];
}

abbrev runner : Runner
runner = record {
  metadata = some context;
  device = record { out = λ slot. 0; guard_hits = 0 };
  guard_hits_cpu = 0;
  guard_step = 0;
  guard_reported = 0;
  logged = [];
  telemetry = none;
}

abbrev slots : Slots
slots = record {
  num_accepted_tokens = λ slot. 2;
  mamba_state_idx = λ slot. pos 1;
  num_scheduled_tokens = λ slot. 3;
  num_computed_tokens = λ slot. 6;
  num_draft_tokens = λ slot. 2;
}

abbrev launch : Launch
launch = record {
  num_reqs = 1;
  idx_mapping = none;
  block_table = λ row col. pos 1;
  dim_first = false;
}

abbrev tables : ℕ → ℕ → ℤ → ℤ
tables group row col = pos 1

ready : initialize false [] [] runner.metadata ≡ some context
ready = initialize-again false [] [] context

postprocess_mamba_align_gpu-counts_example :
    (r' : Runner) × (counts : ℕ → ℕ) × (postprocess_mamba_align_gpu false [] [] 4 launch tables
        slots
        (λ i. 9)
        runner
      ≡ some (r', counts))
    × (r'.metadata ≡ some context)
    × ((i : ℕ) → counts i ≡ (if ltb i 1 then (if stays_put 4 false slots i then 1 else 2) else 9))
postprocess_mamba_align_gpu-counts_example =
    postprocess_mamba_align_gpu-counts false [] [] 4 launch tables slots (λ i. 9) runner context
      ready refl (omega arith)
