-- ===== src/Mamba/Copy/Examples.antt =====
-- Tests of _copy_mamba_state_block of src/mamba_utils_guarded.py, on a pool of three blocks.
use qwen3_8_flash_dgx_auto_r.Common.{zero, suc, ◌≡◌, refl, false, [], ◌∷◌, arith}
use qwen3_8_flash_dgx_auto_r.Common.Int.{ℤ, pos, negsuc}
use qwen3_8_flash_dgx_auto_r.Mamba.Copy.{
  StatePool, guard_hit, copies, copy_mamba_state_block, copy_to, conv_branch, conv_copy, checked,
  valid_id, block_addr, token_bytes,
}
use qwen3_8_flash_dgx_auto_r.Mamba.Copy.Inside.{IsLaidOut, AreInside, copy_mamba_state_block-inside}

abbrev state : StatePool
state = record {
  base_addr = 1000;
  block_stride = 64;
  elem_size = 2;
  inner_size = 8;
  conv_width = 3;
  dim_rows = 0;
  row_stride = 0;
  num_blocks = 3;
}

-- Column 1 holds a stale id.
abbrev table : ℤ → ℤ
table (negsuc n) = pos 77
table (pos zero) = pos 2
table (pos (suc zero)) = pos 9
table (pos (suc (suc n))) = pos 0

stale_test : copy_mamba_state_block state false table (pos 1) (pos 0) 1 0 ≡ guard_hit
unfolding copy_mamba_state_block copy_to checked valid_id
stale_test = refl

copy_test :
    copy_mamba_state_block state false table (pos 0) (pos 2) 1 0
    ≡ copies (record { src = 1144; dst = 1000; size = 32 } ∷ [])
unfolding copy_mamba_state_block copy_to conv_branch conv_copy checked valid_id block_addr
    token_bytes
copy_test = refl

laid_out : IsLaidOut state
unfolding token_bytes
laid_out = record {
  token_fits = omega arith;
  window_fits = omega arith;
  row_fits = λ row h. absurd (omega (arith, h));
}

copy_mamba_state_block-inside_example :
    AreInside state (copy_mamba_state_block state false table (pos 0) (pos 2) 1 0)
copy_mamba_state_block-inside_example =
    copy_mamba_state_block-inside state false table (pos 0) (pos 2) 1 0 laid_out (λ h. omega arith)
