-- ===== src/Mamba/Kernels/Resets.antt =====
-- When postprocess_mamba_fused_kernel of src/mamba_utils_guarded.py resets an accepted count.
use qwen3_8_flash_dgx_auto_r.Common.{
  ℕ, ◌<◌, ◌≡◌, refl, Bool, false, ◌&&◌, Option, none, some, ◌==◌, inl, inr, Option-cases, arith,
}
use qwen3_8_flash_dgx_auto_r.Common.Int.{ℤ, eq_ℤ}
use qwen3_8_flash_dgx_auto_r.Mamba.Copy.{StatePool}
use qwen3_8_flash_dgx_auto_r.Mamba.Kernels.{
  Slots, Launch, slot_of, copy_plan, token_counts, postprocess_copy, postprocess_counts,
  postprocess_slot, postprocess_mamba_fused_kernel,
}

-- The plan of a slot ends in the column that its state is in.
abbrev pub ends_at : ℤ → Option (ℕ × ℤ) → Bool
ends_at column none = false
ends_at column (some (bias, dest)) = eq_ℤ column dest

pub stays_put : ℕ → Bool → Slots → ℕ → Bool
stays_put block_size precomputed s slot =
    let counts = token_counts precomputed s slot in
    ends_at (s.mamba_state_idx slot) (copy_plan block_size counts.0 counts.1)

-- Only the first program of a request.
pub resets : ℕ → Bool → Slots → Option ℕ → ℕ → ℕ → Bool
unfolding stays_put
resets block_size precomputed s none state_idx tile_idx = false
resets block_size precomputed s (some slot) state_idx tile_idx =
    stays_put block_size precomputed s slot && (state_idx == 0) && (tile_idx == 0)

module _ (p : StatePool) (block_size : ℕ) (l : Launch) (s : Slots)
    (batch_idx state_idx tile_idx : ℕ) where
  counts-ends_at :
      (slot : ℕ) (column : ℤ) (counts : ℕ × ℕ)
      → (postprocess_counts p block_size l column slot batch_idx state_idx tile_idx counts).0 ≡ (
          ends_at column (copy_plan block_size counts.0 counts.1)
          && (state_idx == 0)
          && (tile_idx == 0))
  unfolding postprocess_counts postprocess_copy
  counts-ends_at slot column (running, new) =
      elim (Option-cases (copy_plan block_size running new)) [
        | inl e ↦ rw (postprocess_counts, e) refl
        | inr (plan, e) ↦ rw (postprocess_counts, e) refl
      ]

  pub postprocess-resets :
      (precomputed : Bool)
      → (postprocess_mamba_fused_kernel p block_size precomputed l s batch_idx state_idx tile_idx).0
        ≡ resets block_size precomputed s (slot_of l batch_idx) state_idx tile_idx
  unfolding postprocess_mamba_fused_kernel resets postprocess_slot
  postprocess-resets precomputed = elim (Option-cases (slot_of l batch_idx)) [
    | inl e ↦ rw (postprocess_mamba_fused_kernel, e) refl
    | inr (slot, e) ↦
        rw (postprocess_mamba_fused_kernel, e)
          (counts-ends_at slot (s.mamba_state_idx slot) (token_counts precomputed s slot))
  ]

pub resets-later :
    (block_size : ℕ) (precomputed : Bool) (s : Slots) (slot : Option ℕ) (state_idx tile_idx : ℕ)
    → ((state_idx == 0) && (tile_idx == 0)) ≡ false
    → resets block_size precomputed s slot state_idx tile_idx ≡ false
unfolding resets
resets-later block_size precomputed s none state_idx tile_idx h = refl
resets-later block_size precomputed s (some slot) state_idx tile_idx h = ground (arith, h)

pub slot_of-rows :
    (l : Launch) (rows : ℕ → ℤ → ℤ) (batch_idx : ℕ)
    → slot_of (record l { block_table = rows }) batch_idx ≡ slot_of l batch_idx
unfolding slot_of
slot_of-rows l rows batch_idx = refl

-- V1 batch order is the order of the slots.
pub slot_of-own :
    (l : Launch) (batch_idx : ℕ)
    → l.idx_mapping ≡ none
    → batch_idx < l.num_reqs
    → slot_of l batch_idx ≡ some batch_idx
unfolding slot_of
slot_of-own l batch_idx plain lt = rw plain (ground (arith, lt))

pub resets-own :
    (block_size : ℕ) (s : Slots) (slot : ℕ)
    → resets block_size false s (some slot) 0 0 ≡ stays_put block_size false s slot
unfolding resets
resets-own block_size s slot = ground arith
