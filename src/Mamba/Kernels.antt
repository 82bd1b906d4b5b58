-- ===== src/Mamba/Kernels.antt =====
-- The fused kernels of src/mamba_utils_guarded.py that decide which state blocks to copy:
-- postprocess_mamba_fused_kernel, preprocess_mamba_align_fused_kernel and
-- precopy_mamba_align_fused_kernel. An array on the device is a function of the slot. The token
-- counts are such that no difference of them falls below 0.
mod Plan
pub mod Guarded
pub mod Resets
mod Staging
mod Examples
use qwen3_8_flash_dgx_auto_r.Common.{
  ℕ, zero, suc, ◌+◌, ◌-◌, ◌*◌, ◌/◌, Bool, true, false, not, ◌&&◌, List, [], ◌∷◌, Option, none, some,
  ltb, leb, ◌==◌, if◌then◌else◌,
}
use qwen3_8_flash_dgx_auto_r.Common.Int.{ℤ, pos, negsuc, lt_ℤ, eq_ℤ, pred_ℤ}
use qwen3_8_flash_dgx_auto_r.Mamba.Copy.{StatePool, Outcome, idle, copy_mamba_state_block}

-- The decision inputs, by request slot.
pub record Slots : Type 0 where
  pub num_accepted_tokens : ℕ → ℕ
  pub mamba_state_idx : ℕ → ℤ
  pub num_scheduled_tokens : ℕ → ℕ
  pub num_computed_tokens : ℕ → ℕ
  pub num_draft_tokens : ℕ → ℕ

-- What all programs of a launch share: HAS_IDX_MAPPING with idx_mapping, the row of the block table
-- for a batch index, and the layout switch.
pub record Launch : Type 0 where
  pub num_reqs : ℕ
  pub idx_mapping : Option (ℕ → ℤ)
  pub block_table : ℕ → ℤ → ℤ
  pub dim_first : Bool

-- The slot of a batch index; `none` is an early return.
pub slot_of : Launch → ℕ → Option ℕ
slot_of l batch_idx = if leb l.num_reqs batch_idx then none else elim l.idx_mapping [
  | none ↦ some batch_idx
  | some mapping ↦ elim (mapping batch_idx) [ pos slot ↦ some slot | negsuc n ↦ none ]
]

-- `accept_token_bias` and `dest_block_idx`, or no copy.
pub copy_plan : ℕ → ℕ → ℕ → Option (ℕ × ℤ)
copy_plan block_size running new_num_computed =
    let aligned = new_num_computed / block_size * block_size in
    if leb running aligned then some (aligned - running, pred_ℤ (aligned / block_size)) else none

-- `num_tokens_running_state` and `new_num_computed`, with PRECOMPUTED_NEW_COMPUTED or without;
-- the `+ 1` comes first, so that the subtraction does not stop at 0 where the code's does not.
pub token_counts : Bool → Slots → ℕ → ℕ × ℕ
token_counts true s slot =
    (s.num_computed_tokens slot + 1 - s.num_accepted_tokens slot, s.num_computed_tokens slot)
token_counts false s slot =
    let running =
      s.num_computed_tokens slot + s.num_scheduled_tokens slot - s.num_draft_tokens slot in
    (running, running + s.num_accepted_tokens slot - 1)

-- The row that the kernel reads is the batch's with a mapping, and the slot's without: the two are
-- then the same.
row_of : Launch → ℕ → ℕ → ℤ → ℤ
row_of l batch_idx slot = elim l.idx_mapping [
  | none ↦ l.block_table slot
  | some mapping ↦ l.block_table batch_idx
]

-- After the plan: whether this program resets the accepted count, and what it copies.
postprocess_copy : StatePool → Launch → ℤ → ℕ → ℕ → ℕ → ℕ → ℕ × ℤ → Bool × Outcome
unfolding row_of
postprocess_copy p l src slot batch_idx state_idx tile_idx (bias, dest) = (
  eq_ℤ src dest && (state_idx == 0) && (tile_idx == 0),
  if eq_ℤ src dest && (bias == 0)
      then idle
      else copy_mamba_state_block p l.dim_first (row_of l batch_idx slot) src dest bias tile_idx,
)

postprocess_counts : StatePool → ℕ → Launch → ℤ → ℕ → ℕ → ℕ → ℕ → ℕ × ℕ → Bool × Outcome
unfolding copy_plan postprocess_copy
postprocess_counts p block_size l src slot batch_idx state_idx tile_idx
      (running, new_num_computed) =
    elim (copy_plan block_size running new_num_computed) [
      | none ↦ (false, idle)
      | some plan ↦ postprocess_copy p l src slot batch_idx state_idx tile_idx plan
    ]

postprocess_slot : StatePool → ℕ → Bool → Launch → Slots → ℕ → ℕ → ℕ → ℕ → Bool × Outcome
unfolding token_counts postprocess_counts
postprocess_slot p block_size precomputed l s batch_idx state_idx tile_idx slot =
    postprocess_counts p block_size l (s.mamba_state_idx slot) slot batch_idx state_idx tile_idx
      (token_counts precomputed s slot)

-- postprocess_mamba_fused_kernel, for one program of the grid; `p` is the metadata at `state_idx`.
pub postprocess_mamba_fused_kernel :
    StatePool → ℕ → Bool → Launch → Slots → ℕ → ℕ → ℕ → Bool × Outcome
unfolding slot_of postprocess_slot
postprocess_mamba_fused_kernel p block_size precomputed l s batch_idx state_idx tile_idx =
    elim (slot_of l batch_idx) [
      | none ↦ (false, idle)
      | some slot ↦ postprocess_slot p block_size precomputed l s batch_idx state_idx tile_idx slot
    ]

-- What preprocess_mamba_align_fused_kernel stores for a slot.
pub record Advanced : Type 0 where
  pub src_col : ℤ
  pub src_off : ℕ
  pub state_idx : ℤ
  pub num_accepted : ℕ

-- `tl.maximum(num_accepted - 1, 0)` is the subtraction that stops at 0.
pub advance : ℕ → ℤ → ℕ → ℕ → Advanced
advance mamba_block_size state_idx num_accepted computed_after =
    let new_state_idx = pred_ℤ ((computed_after + mamba_block_size - 1) / mamba_block_size) in
    record {
      src_col = state_idx;
      src_off = num_accepted - 1;
      state_idx = new_state_idx;
      num_accepted =
          if not (lt_ℤ state_idx (pos 0)) && not (eq_ℤ state_idx new_state_idx)
          then 1
          else num_accepted;
    }

-- The lanes of preprocess_mamba_align_fused_kernel below num_reqs, each a slot of its own; the
-- array `query_start_loc` gives the tokens of a batch index.
pub preprocess_align_lane : ℕ → (ℕ → ℕ) → Slots → (ℕ → ℕ) → ℕ → Advanced
unfolding advance
preprocess_align_lane mamba_block_size slot s query_start_loc i =
    advance mamba_block_size (s.mamba_state_idx (slot i)) (s.num_accepted_tokens (slot i))
      (s.num_computed_tokens (slot i) + query_start_loc (i + 1) - query_start_loc i)

-- The test and the copy of precopy_mamba_align_fused_kernel, for a slot.
pub precopy_slot : StatePool → Launch → (ℤ → ℤ) → ℤ → ℤ → ℕ → ℕ → Outcome
precopy_slot p l row src_col dst_col token_bias tile_idx =
    if lt_ℤ src_col (pos 0)
    then idle
    else if eq_ℤ src_col dst_col
    then idle
    else copy_mamba_state_block p l.dim_first row src_col dst_col token_bias tile_idx

-- precopy_mamba_align_fused_kernel, for one program of the grid, on the arrays mamba_state_idx,
-- src_col and token_bias.
pub precopy_mamba_align_fused_kernel :
    StatePool → Launch → (ℕ → ℤ) → (ℕ → ℤ) → (ℕ → ℕ) → ℕ → ℕ → Outcome
unfolding slot_of precopy_slot
precopy_mamba_align_fused_kernel p l mamba_state_idx src_col token_bias batch_idx tile_idx =
    elim (slot_of l batch_idx) [
      | none ↦ idle
      | some slot ↦
          precopy_slot p l (l.block_table batch_idx) (src_col slot) (mamba_state_idx slot)
            (token_bias slot) tile_idx
    ]
