-- ===== src/Mamba/Step.antt =====
-- What a step of the model runner stages and reads back, in src/mamba_utils_guarded.py:
-- stage_postprocess_inputs_to_gpu, postprocess_mamba_align_gpu and preprocess_mamba_all_specdec. A
-- buffer is the list of its entries, a tensor a function of the index, and a failed assertion is
-- `none`. The scheduler's view and the draft tokens of a request are functions of it.
mod Ready
mod Examples
use qwen3_8_flash_dgx_auto_r.Common.{
  ℕ, zero, suc, Bool, length, replicate, List, [], ◌∷◌, ◌++◌, Option, none, some, get_or, ltb,
  if◌then◌else◌, map, lookup, ℕ_discrete,
}
use qwen3_8_flash_dgx_auto_r.Common.Int.{ℤ, negsuc}
use qwen3_8_flash_dgx_auto_r.Mamba.Columns.{Columns, cleanup_mamba_state_idx}
use qwen3_8_flash_dgx_auto_r.Mamba.Layout.{Layer, BlockTable, Context, initialize}
use qwen3_8_flash_dgx_auto_r.Mamba.Kernels.{Slots, Launch}
use qwen3_8_flash_dgx_auto_r.Mamba.Launch.{Runner, run_fused_postprocess}

-- The four buffers, at one index.
pub record Input : Type 0 where
  pub state_idx : ℤ
  pub num_scheduled : ℕ
  pub num_computed : ℕ
  pub num_draft : ℕ

abbrev attach_input : Input → Option (List Input) → Option (List Input)
attach_input input none = none
attach_input input (some inputs) = some (input ∷ inputs)

module _ (scheduled computed : ℕ → ℕ) (drafts : ℕ → Option (List ℕ)) where
  pub input_of : ℕ → ℤ → Input
  input_of req column = record {
    state_idx = column;
    num_scheduled = scheduled req;
    num_computed = computed req;
    num_draft = length (get_or (drafts req) []);
  }

  -- stage_postprocess_inputs_to_gpu, for `req_ids[:num_reqs]`.
  pub stage_postprocess_inputs_to_gpu : Columns → List ℕ → Option (List Input)
  unfolding lookup input_of
  stage_postprocess_inputs_to_gpu d [] = some []
  stage_postprocess_inputs_to_gpu d (req ∷ reqs) =
      let rest = stage_postprocess_inputs_to_gpu d reqs in
      elim (lookup ℕ_discrete req d) [
        | none ↦ none
        | some column ↦ attach_input (input_of req column) rest
      ]

-- preprocess_mamba_all_specdec: the columns, and the buffer; `rest` entries of it are past num_reqs.
pub preprocess_mamba_all_specdec :
    List ℕ → List ℕ → List ℕ → Columns → List ℕ → ℕ → Columns × List ℤ
unfolding lookup
preprocess_mamba_all_specdec finished preempted resumed d reqs rest =
    let d' = cleanup_mamba_state_idx finished preempted resumed d in
    (
      d',
      map (λ req. get_or (lookup ℕ_discrete req d') (negsuc 0)) reqs ++ replicate rest (negsuc 0),
    )

-- After the initialisation: the runner, and num_accepted_tokens_cpu_tensor.
abbrev read_back :
    ℕ
    → Launch
    → (ℕ → ℕ → ℤ → ℤ)
    → Slots
    → (ℕ → ℕ)
    → Runner
    → Option Context
    → Option (Runner × (ℕ → ℕ))
read_back block_size l tables s cpu r none = none
read_back block_size l tables s cpu r (some ctx) =
    let r' = run_fused_postprocess block_size l tables s (record r { metadata = some ctx }) in
    some (r', λ i. if ltb i l.num_reqs then r'.device.out i else cpu i)

-- postprocess_mamba_align_gpu, where bufs.postprocess_align is there; it reads `s` from its buffers.
pub postprocess_mamba_align_gpu :
    Bool
    → List (List Layer)
    → List BlockTable
    → ℕ
    → Launch
    → (ℕ → ℕ → ℤ → ℤ)
    → Slots
    → (ℕ → ℕ)
    → Runner
    → Option (Runner × (ℕ → ℕ))
postprocess_mamba_align_gpu dim_first groups block_tables block_size l tables s cpu r =
    read_back block_size l tables s cpu r (initialize dim_first groups block_tables r.metadata)
