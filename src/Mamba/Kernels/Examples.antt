-- ===== src/Mamba/Kernels/Examples.antt =====
-- Tests of the fused kernels of src/mamba_utils_guarded.py, with blocks of four tokens: of the
-- request's seven tokens four were computed before the step, and one of two drafts was accepted.
use qwen3_8_flash_dgx_auto_r.Common.{◌*◌, ◌≡◌, refl, false, none, some, arith}
use qwen3_8_flash_dgx_auto_r.Common.Int.{pos}
use qwen3_8_flash_dgx_auto_r.Mamba.Copy.{StatePool}
use qwen3_8_flash_dgx_auto_r.Mamba.Columns.{Staged, stage, curr_idx}
use qwen3_8_flash_dgx_auto_r.Mamba.Columns.Stage.{curr_idx-div}
use qwen3_8_flash_dgx_auto_r.Mamba.Kernels.{
  Slots, Launch, copy_plan, advance, preprocess_align_lane,
}
use qwen3_8_flash_dgx_auto_r.Mamba.Kernels.Plan.{IsBoundary, copy_plan-IsBoundary}
use qwen3_8_flash_dgx_auto_r.Mamba.Kernels.Staging.{IsSameStep, stage-advance}

abbrev pool : StatePool
pool = record {
  base_addr = 1000;
  block_stride = 64;
  elem_size = 2;
  inner_size = 8;
  conv_width = 3;
  dim_rows = 0;
  row_stride = 0;
  num_blocks = 3;
}

abbrev slots : Slots
slots = record {
  num_accepted_tokens = λ slot. 2;
  mamba_state_idx = λ slot. pos 1;
  num_scheduled_tokens = λ slot. 3;
  num_computed_tokens = λ slot. 6;
  num_draft_tokens = λ slot. 2;
}

abbrev launch : Launch
launch = record {
  num_reqs = 1;
  idx_mapping = none;
  block_table = λ row col. pos 1;
  dim_first = false;
}

-- Seven tokens run and eight are computed: the first two blocks are full.
plan_test : copy_plan 4 7 8 ≡ some (1, pos 1)
unfolding copy_plan
plan_test = refl

lane_test :
    preprocess_align_lane 4 (λ i. 0) slots (λ i. i * 3) 0
    ≡ record { src_col = pos 1; src_off = 1; state_idx = pos 2; num_accepted = 1 }
unfolding preprocess_align_lane advance
lane_test = refl

copy_plan-IsBoundary_example : IsBoundary 4 7 8 (copy_plan 4 7 8)
copy_plan-IsBoundary_example = copy_plan-IsBoundary 4 7 8 (omega arith)

abbrev next : Staged
next = record { state_idx = pos 2; src_col = pos 1; token_bias = 1; num_accepted = 1 }

staged : stage (pos 1) (curr_idx 4 2 9) 2 ≡ some next
unfolding stage
staged = rw (curr_idx-div 4 2 9 (omega arith)) refl

stage-advance_example : IsSameStep pool launch (λ col. pos 1) 0 next (advance 4 (pos 1) 2 9)
stage-advance_example =
    stage-advance pool launch (λ col. pos 1) 0 4 2 9 2 (pos 1) next (omega arith) (omega arith) refl
      staged
