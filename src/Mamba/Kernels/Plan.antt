-- ===== src/Mamba/Kernels/Plan.antt =====
-- Where postprocess_mamba_fused_kernel of src/mamba_utils_guarded.py saves the state.
use qwen3_8_flash_dgx_auto_r.Common.{
  ℕ, ◌+◌, ◌-◌, ◌*◌, ◌/◌, ◌≤◌, ◌<◌, ◌≡◌, refl, ap, true, false, inl, inr, Option, none, some, leb,
  leb→le, Bool-cases, Option-cases, arith,
}
use native.Mathlib.Nat.{
  div-add-mod, mod-lt, mul_comm, mul-div_cancel, mul-le-mul_right, add-mul, one-mul,
}
use qwen3_8_flash_dgx_auto_r.Common.Int.{ℤ, pred_ℤ}
use qwen3_8_flash_dgx_auto_r.Mamba.Copy.{StatePool}
use qwen3_8_flash_dgx_auto_r.Mamba.Kernels.{
  Slots, Launch, slot_of, token_counts, copy_plan, postprocess_counts, postprocess_slot,
  postprocess_mamba_fused_kernel,
}

module _ (block_size running new_num_computed : ℕ) where
  -- No copy: no block ends between the running state and the new count. A copy: `k` whole blocks end
  -- at `bias` tokens after the running state, and no block after them ends by the new count.
  pub IsBoundary : Option (ℕ × ℤ) → Type 0
  IsBoundary none = (k : ℕ) → running ≤ k * block_size → new_num_computed < k * block_size
  IsBoundary (some (bias, dest)) =
      (k : ℕ) × (dest ≡ pred_ℤ k)
      × (k * block_size ≡ running + bias)
      × (k * block_size ≤ new_num_computed)
      × (new_num_computed < (k + 1) * block_size)

  abbrev blocks : ℕ
  blocks = new_num_computed / block_size

  below : blocks * block_size ≤ new_num_computed
  below = omega (arith, div-add-mod new_num_computed block_size, mul_comm blocks block_size)

  above : 0 < block_size → new_num_computed < (blocks + 1) * block_size
  above h = omega (
    arith,
    div-add-mod new_num_computed block_size,
    mul_comm blocks block_size,
    mod-lt new_num_computed h,
    add-mul blocks 1 block_size,
    one-mul block_size,
  )

  -- A later boundary is at least one block further.
  no_later :
      0 < block_size
      → blocks * block_size < running
      → (k : ℕ) → running ≤ k * block_size
      → new_num_computed < k * block_size
  no_later h before k reach = elim (Bool-cases (leb k blocks)) [
    | inl e ↦
        let early : k * block_size ≤ blocks * block_size =
          mul-le-mul_right block_size (leb→le k blocks e) in
        absurd (omega (arith, early))
    | inr e ↦
        let late : (blocks + 1) * block_size ≤ k * block_size =
          mul-le-mul_right block_size (ground (arith, e)) in
        omega (arith, late, above h)
  ]

  -- For a positive block size, the plan of the postprocess kernel copies to the last block boundary
  -- up to the new token count, with the tokens from the running state to it as the bias, and there
  -- is no plan only when no boundary lies between the two.
  pub copy_plan-IsBoundary :
      0 < block_size → IsBoundary (copy_plan block_size running new_num_computed)
  unfolding copy_plan IsBoundary
  copy_plan-IsBoundary h = elim (Bool-cases (leb running (blocks * block_size))) [
    | inl e ↦ rw e (
      blocks,
      ap pred_ℤ (mul-div_cancel blocks h),
      omega (arith, leb→le running (blocks * block_size) e),
      below,
      above h,
    )
    | inr e ↦ rw e (no_later h (ground (arith, e)))
  ]

-- The slots as the V2 runner gives them: the computed count is the one after the step.
pub precomputed : Slots → Slots
precomputed s = record s { num_computed_tokens = λ slot. (token_counts false s slot).1 }

token_counts-precomputed :
    (s : Slots) (slot : ℕ)
    → 0 < s.num_accepted_tokens slot
    → token_counts true (precomputed s) slot ≡ token_counts false s slot
unfolding token_counts precomputed
token_counts-precomputed s slot h =
    let running =
      s.num_computed_tokens slot + s.num_scheduled_tokens slot - s.num_draft_tokens slot in
    let accepted = s.num_accepted_tokens slot in
    let same : running + accepted - 1 + 1 - accepted ≡ running = omega (arith, h) in
    ap (λ n. (n, running + accepted - 1)) same

module _ (p : StatePool) (block_size : ℕ) (l : Launch) (s : Slots)
    (batch_idx state_idx tile_idx : ℕ) where
  slot-precomputed :
      (slot : ℕ)
      → 0 < s.num_accepted_tokens slot
      → postprocess_slot p block_size true l (precomputed s) batch_idx state_idx tile_idx slot
        ≡ postprocess_slot p block_size false l s batch_idx state_idx tile_idx slot
  unfolding postprocess_slot precomputed
  slot-precomputed slot h =
      ap
        (postprocess_counts p block_size l (s.mamba_state_idx slot) slot batch_idx state_idx
          tile_idx)
        (token_counts-precomputed s slot h)

  -- When every slot has an accepted token, a program of the postprocess kernel does the same with
  -- precomputed token counts as with the counts that they are computed from.
  pub postprocess-precomputed :
      ((slot : ℕ) → 0 < s.num_accepted_tokens slot)
      → postprocess_mamba_fused_kernel p block_size true l
          (precomputed s)
          batch_idx
          state_idx
          tile_idx
        ≡ postprocess_mamba_fused_kernel p block_size false l s batch_idx state_idx tile_idx
  unfolding postprocess_mamba_fused_kernel
  postprocess-precomputed h = elim (Option-cases (slot_of l batch_idx)) [
    | inl e ↦ rw (postprocess_mamba_fused_kernel, e) refl
    | inr (slot, e) ↦ rw (postprocess_mamba_fused_kernel, e) (slot-precomputed slot (h slot))
  ]
