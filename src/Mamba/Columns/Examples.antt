-- ===== src/Mamba/Columns/Examples.antt =====
-- Tests of preprocess_mamba of src/mamba_utils_guarded.py, with blocks of four tokens: request 7 goes
-- on to a new block, request 8 has just arrived.
use qwen3_8_flash_dgx_auto_r.Common.{
  ℕ, ◌≡◌, refl, true, List, [], ◌∷◌, some, ◌==◌, if◌then◌else◌, elem, distinct, lookup, set,
  ℕ_discrete, arith,
}
use qwen3_8_flash_dgx_auto_r.Common.Int.{pos, negsuc}
use qwen3_8_flash_dgx_auto_r.Mamba.Columns.{
  Columns, Staged, preprocess_mamba, stage_request, stage, new_idx, curr_idx, seed_idx, cdiv,
  cleanup_mamba_state_idx, pop_all, pop, postprocess_mamba_all,
}
use qwen3_8_flash_dgx_auto_r.Mamba.Columns.Stage.{IsStaged, preprocess_mamba-IsStaged}

abbrev computed : ℕ → ℕ
computed req = if req == 7 then 4 else 0

abbrev scheduled : ℕ → ℕ
scheduled req = 3

abbrev columns : Columns
columns = (7, pos 0) ∷ (9, pos 5) ∷ []

abbrev batch : List (ℕ × ℕ)
batch = (7, 2) ∷ (8, 1) ∷ []

staged_test :
    preprocess_mamba 4 2 computed scheduled columns batch
    ≡ some (
      (7, pos 1) ∷ (9, pos 5) ∷ (8, pos 0) ∷ [],
      record { state_idx = pos 1; src_col = pos 0; token_bias = 1; num_accepted = 1 }
          ∷ record { state_idx = pos 0; src_col = negsuc 0; token_bias = 0; num_accepted = 1 }
          ∷ [],
    )
unfolding preprocess_mamba stage_request stage new_idx curr_idx seed_idx cdiv lookup set ℕ_discrete
staged_test = refl

cleanup_test : cleanup_mamba_state_idx (9 ∷ []) [] (7 ∷ []) columns ≡ []
unfolding cleanup_mamba_state_idx pop_all pop
cleanup_test = refl

postprocess_test :
    postprocess_mamba_all 4 2 computed scheduled 2 columns (7 ∷ []) ≡ (7, pos 1) ∷ (9, pos 5) ∷ []
unfolding postprocess_mamba_all set ℕ_discrete
postprocess_test = refl

once : distinct ℕ_discrete (7 ∷ 8 ∷ []) ≡ true
unfolding distinct elem ℕ_discrete
once = refl

preprocess_mamba-IsStaged_example :
    (d' : Columns) × (ss : List Staged) × (preprocess_mamba 4 2 computed scheduled columns batch
      ≡ some (d', ss))
    × IsStaged 4 2 computed scheduled columns batch d' ss
preprocess_mamba-IsStaged_example =
    preprocess_mamba-IsStaged 4 2 computed scheduled batch columns once
      (omega arith, (omega arith, tt))
