-- ===== src/Mamba/Kernels/Guarded.antt =====
-- Where the programs of the fused kernels of src/mamba_utils_guarded.py copy.
use qwen3_8_flash_dgx_auto_r.Common.{
  ℕ, ◌+◌, ◌-◌, ◌≤◌, ◌<◌, ◌≡◌, Bool, true, false, ◌&&◌, inl, inr, some, ◌==◌, Bool-cases,
  Option-cases, arith,
}
use native.Mathlib.Nat.{div-mul-le_self}
use qwen3_8_flash_dgx_auto_r.Common.Int.{ℤ, pos, lt_ℤ, eq_ℤ}
use qwen3_8_flash_dgx_auto_r.Mamba.Copy.{StatePool}
use qwen3_8_flash_dgx_auto_r.Mamba.Copy.Inside.{IsLaidOut, AreInside, copy_mamba_state_block-inside}
use qwen3_8_flash_dgx_auto_r.Mamba.Kernels.{
  Slots, Launch, slot_of, copy_plan, token_counts, row_of, postprocess_copy, postprocess_counts,
  postprocess_slot, postprocess_mamba_fused_kernel, precopy_slot, precopy_mamba_align_fused_kernel,
}

-- A window that is long enough for the accepted tokens.
abbrev pub HasRoom : StatePool → ℕ → Type 0
HasRoom p accepted = 0 < p.conv_width → accepted ≤ p.conv_width + 1

module _ (p : StatePool) (l : Launch) (laid : IsLaidOut p) where
  -- The shift of a plan is below the number of accepted tokens.
  copy_plan-bias :
      (block_size running new accepted bias : ℕ) (dest : ℤ)
      → new ≤ running + accepted - 1
      → copy_plan block_size running new ≡ some (bias, dest)
      → bias ≤ accepted - 1
  unfolding copy_plan
  copy_plan-bias block_size running new accepted bias dest le e =
      ground (arith, e, le, div-mul-le_self new block_size)

  token_counts_near :
      (precomputed : Bool) (s : Slots) (slot : ℕ)
      → let (running, new) = token_counts precomputed s slot in
        new ≤ running + s.num_accepted_tokens slot - 1
  unfolding token_counts
  token_counts_near true s slot = omega arith
  token_counts_near false s slot = omega arith

  postprocess_copy-inside :
      (src : ℤ) (slot batch_idx state_idx tile_idx bias : ℕ) (dest : ℤ)
      → (0 < p.conv_width → bias ≤ p.conv_width)
      → AreInside p (postprocess_copy p l src slot batch_idx state_idx tile_idx (bias, dest)).1
  unfolding postprocess_copy
  postprocess_copy-inside src slot batch_idx state_idx tile_idx bias dest room =
      elim (Bool-cases (eq_ℤ src dest && (bias == 0))) [
        | inl e ↦ rw e tt
        | inr e ↦ rw e (
            copy_mamba_state_block-inside p l.dim_first (row_of l batch_idx slot) src dest bias
              tile_idx laid room)
      ]

  precopy_slot-inside :
      (row : ℤ → ℤ) (src dst : ℤ) (bias tile_idx : ℕ)
      → (0 < p.conv_width → bias ≤ p.conv_width)
      → AreInside p (precopy_slot p l row src dst bias tile_idx)
  unfolding precopy_slot
  precopy_slot-inside row src dst bias tile_idx room = elim (Bool-cases (lt_ℤ src (pos 0))) [
    | inl e ↦ rw e tt
    | inr e ↦ elim (Bool-cases (eq_ℤ src dst)) [
      | inl same ↦ rw (e, same) tt
      | inr other ↦
          rw (e, other)
            (copy_mamba_state_block-inside p l.dim_first row src dst bias tile_idx laid room)
    ]
  ]

  postprocess_counts-inside :
      (block_size : ℕ) (src : ℤ) (slot batch_idx state_idx tile_idx running new accepted : ℕ)
      → new ≤ running + accepted - 1
      → HasRoom p accepted
      → AreInside p
          (postprocess_counts p block_size l src slot batch_idx state_idx tile_idx (running, new)).1
  unfolding postprocess_counts
  postprocess_counts-inside block_size src slot batch_idx state_idx tile_idx running new accepted le
        room =
      elim (Option-cases (copy_plan block_size running new)) [
        | inl e ↦ rw (postprocess_counts, e) tt
        | inr ((bias, dest), e) ↦
            let small : bias ≤ accepted - 1 =
              copy_plan-bias block_size running new accepted bias dest le e in
            rw (postprocess_counts, e)
              (postprocess_copy-inside src slot batch_idx state_idx tile_idx bias dest
                (λ conv. omega (arith, small, room conv)))
      ]

  -- For a state that is laid out within its blocks, with a window that is longer than the accepted
  -- tokens but one: no program of the postprocess kernel copies outside the pool.
  pub postprocess-inside :
      (block_size : ℕ) (precomputed : Bool) (s : Slots) (batch_idx state_idx tile_idx : ℕ)
      → ((slot : ℕ) → HasRoom p (s.num_accepted_tokens slot))
      → AreInside p
          (postprocess_mamba_fused_kernel p block_size precomputed l s batch_idx state_idx
            tile_idx).1
  unfolding postprocess_mamba_fused_kernel postprocess_slot
  postprocess-inside block_size precomputed s batch_idx state_idx tile_idx room =
      elim (Option-cases (slot_of l batch_idx)) [
        | inl e ↦ rw (postprocess_mamba_fused_kernel, e) tt
        | inr (slot, e) ↦
            rw (postprocess_mamba_fused_kernel, e)
              (postprocess_counts-inside block_size (s.mamba_state_idx slot) slot batch_idx
                state_idx tile_idx _ _ (s.num_accepted_tokens slot)
                (token_counts_near precomputed s slot) (room slot))
      ]

  pub precopy-inside :
      (state_idx src_col : ℕ → ℤ) (token_bias : ℕ → ℕ) (batch_idx tile_idx : ℕ)
      → ((slot : ℕ) → 0 < p.conv_width → token_bias slot ≤ p.conv_width)
      → AreInside p
          (precopy_mamba_align_fused_kernel p l state_idx src_col token_bias batch_idx tile_idx)
  unfolding precopy_mamba_align_fused_kernel
  precopy-inside state_idx src_col token_bias batch_idx tile_idx room =
      elim (Option-cases (slot_of l batch_idx)) [
        | inl e ↦ rw (precopy_mamba_align_fused_kernel, e) tt
        | inr (slot, e) ↦
            rw (precopy_mamba_align_fused_kernel, e)
              (precopy_slot-inside (l.block_table batch_idx) (src_col slot) (state_idx slot)
                (token_bias slot) tile_idx (room slot))
      ]
