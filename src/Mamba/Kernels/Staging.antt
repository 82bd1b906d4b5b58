-- ===== src/Mamba/Kernels/Staging.antt =====
-- The staging of preprocess_mamba and that of preprocess_mamba_align_fused_kernel, of
-- src/mamba_utils_guarded.py.
use qwen3_8_flash_dgx_auto_r.Common.{
  ℕ, zero, suc, ◌+◌, ◌-◌, ◌/◌, ◌<◌, ◌≡◌, refl, ap, true, false, not, ◌&&◌, some, if◌then◌else◌, inl,
  inr, Bool-cases, sym, ◌∙◌, some_injective, subst, arith,
}
use qwen3_8_flash_dgx_auto_r.Common.Int.{ℤ, pos, negsuc, lt_ℤ, eq_ℤ, pred_ℤ}
use qwen3_8_flash_dgx_auto_r.Mamba.Copy.{StatePool}
use qwen3_8_flash_dgx_auto_r.Mamba.Columns.{Staged, curr_idx, stage}
use qwen3_8_flash_dgx_auto_r.Mamba.Columns.Stage.{curr_idx-div}
use qwen3_8_flash_dgx_auto_r.Mamba.Kernels.{Launch, Advanced, advance, precopy_slot}

module _ (p : StatePool) (l : Launch) (row : ℤ → ℤ) (tile_idx : ℕ) where
  -- Both give the slot the same column and count, and make this program copy the same.
  pub record IsSameStep (s : Staged) (a : Advanced) : Type 0 where
    pub same_column : s.state_idx ≡ a.state_idx
    pub same_count : s.num_accepted ≡ a.num_accepted
    pub same_copy :
        precopy_slot p l row s.src_col s.state_idx s.token_bias tile_idx
        ≡ precopy_slot p l row a.src_col a.state_idx a.src_off tile_idx

  stays :
      (column : ℤ) (bias : ℕ)
      → precopy_slot p l row column column bias tile_idx
        ≡ precopy_slot p l row (negsuc 0) column 0 tile_idx
  unfolding precopy_slot
  stays (pos n) bias = ground arith
  stays (negsuc n) bias = refl

  eq_ℤ-sound : (a b : ℤ) → eq_ℤ a b ≡ true → a ≡ b
  eq_ℤ-sound (pos a) (pos b) e = ap pos (ground (arith, e))
  eq_ℤ-sound (pos a) (negsuc b) e = cc
  eq_ℤ-sound (negsuc a) (pos b) e = cc
  eq_ℤ-sound (negsuc a) (negsuc b) e = ap negsuc (ground (arith, e))

  module _ (curr : ℤ) (accepted : ℕ) where
    -- advance, once the new column is known.
    abbrev advanced : ℤ → Advanced
    advanced prev = record {
      src_col = prev;
      src_off = accepted - 1;
      state_idx = curr;
      num_accepted = if not (lt_ℤ prev (pos 0)) && not (eq_ℤ prev curr) then 1 else accepted;
    }

    staged-stays :
        (n : ℕ)
        → eq_ℤ (pos n) curr ≡ true
        → stage (pos n) curr accepted
          ≡ some (record {
            state_idx = curr;
            src_col = negsuc 0;
            token_bias = 0;
            num_accepted = accepted;
          })
    unfolding stage
    staged-stays n same = rw same refl

    stays-IsSameStep :
        (n : ℕ)
        → pos n ≡ curr
        → IsSameStep
            (record {
              state_idx = curr;
              src_col = negsuc 0;
              token_bias = 0;
              num_accepted = accepted;
            })
            (advanced (pos n))
    stays-IsSameStep n e = record {
      same_column = refl;
      same_count = rw (sym e) (ground arith);
      same_copy = rw (sym e) (sym (stays (pos n) (accepted - 1)));
    }

  -- For an accepted token: what moves is staged alike.
  moves-IsSameStep :
      (curr : ℤ) (accepted n : ℕ) (s : Staged)
      → 0 < accepted
      → eq_ℤ (pos n) curr ≡ false
      → stage (pos n) curr accepted ≡ some s
      → IsSameStep s (advanced curr accepted (pos n))
  unfolding stage
  moves-IsSameStep curr zero n s h apart e = absurd (omega (arith, h))
  moves-IsSameStep curr (suc bias) n s h apart e =
      let before : bias ≡ suc bias - 1 = omega arith in
      let moved : stage (pos n) curr (suc bias)
          ≡ some
              (record { state_idx = curr; src_col = pos n; token_bias = bias; num_accepted = 1 }) =
        rw apart refl in
      subst (λ s. IsSameStep s (advanced curr (suc bias) (pos n))) (some_injective (sym moved ∙ e))
        (record {
          same_column = refl;
          same_count = rw apart (ground arith);
          same_copy = ap (λ k. precopy_slot p l row (pos n) curr k tile_idx) before;
        })

  stage-IsSameStep :
      (curr prev : ℤ) (accepted : ℕ) (s : Staged)
      → 0 < accepted
      → lt_ℤ prev (negsuc 0) ≡ false
      → stage prev curr accepted ≡ some s
      → IsSameStep s (advanced curr accepted prev)
  unfolding stage precopy_slot
  stage-IsSameStep curr (negsuc zero) accepted s h first e =
      subst (λ s. IsSameStep s (advanced curr accepted (negsuc 0))) (some_injective e)
        (record { same_column = refl; same_count = refl; same_copy = refl })
  stage-IsSameStep curr (negsuc (suc n)) accepted s h first e = absurd (ground (arith, first))
  stage-IsSameStep curr (pos n) accepted s h first e = elim (Bool-cases (eq_ℤ (pos n) curr)) [
    | inl same ↦
        subst (λ s. IsSameStep s (advanced curr accepted (pos n)))
          (some_injective (sym (staged-stays curr accepted n same) ∙ e))
          (stays-IsSameStep curr accepted n (eq_ℤ-sound (pos n) curr same))
    | inr apart ↦ moves-IsSameStep curr accepted n s h apart e
  ]

  -- For a positive block size, an accepted token, and a column of at least -1, what
  -- preprocess_mamba stages for a request and what preprocess_mamba_align_fused_kernel stores for
  -- it agree on the new column and the accepted count, and make each program of the precopy kernel
  -- do the same.
  pub stage-advance :
      (block_size num_speculative tokens accepted : ℕ) (prev : ℤ) (s : Staged)
      → 0 < block_size
      → 0 < accepted
      → lt_ℤ prev (negsuc 0) ≡ false
      → stage prev (curr_idx block_size num_speculative tokens) accepted ≡ some s
      → IsSameStep s (advance block_size prev accepted tokens)
  unfolding advance
  stage-advance block_size spec tokens accepted prev s block h first e =
      let column = curr_idx-div block_size spec tokens block in
      stage-IsSameStep (pred_ℤ ((tokens + block_size - 1) / block_size)) prev accepted s h first
        (subst (λ c. stage prev c accepted ≡ some s) column e)
