-- ===== src/Mamba/Batch/Examples.antt =====
-- Tests of the batched copies of src/mamba_utils_guarded.py.
use qwen3_8_flash_dgx_auto_r.Common.{ℕ, ◌+◌, ◌≡◌, refl, List, [], ◌∷◌, ltb, has, inl, arith}
use qwen3_8_flash_dgx_auto_r.Mamba.Copy.{Copy}
use qwen3_8_flash_dgx_auto_r.Mamba.Layout.{Tensor, CopyFunc, Layer, conv, temporal, total_states}
use qwen3_8_flash_dgx_auto_r.Mamba.Batch.{
  Request, batch_memcpy_kernel, block_loop, store_block, is_left_overlap, create,
  do_mamba_copy_block,
}
use qwen3_8_flash_dgx_auto_r.Mamba.Batch.Memmove.{moved, batch_memcpy_kernel-moved}

-- Five bytes go down by two places, in blocks of two lanes, the higher lane first.
abbrev copy : Copy
copy = record { src = 12; dst = 10; size = 5 }

abbrev order : ℕ → List ℕ
order i = 1 ∷ 0 ∷ []

moved_test : batch_memcpy_kernel 2 order copy (λ a. a) 14 ≡ 16
unfolding batch_memcpy_kernel block_loop store_block is_left_overlap
moved_test = refl

nothing_test : do_mamba_copy_block order (create 3 []) (λ a. a) 14 ≡ 14
unfolding do_mamba_copy_block create total_states
nothing_test = refl

lanes : (i lane : ℕ) → has lane (order i) ≡ ltb lane 2
lanes i lane = ground arith

batch_memcpy_kernel-moved_example :
    batch_memcpy_kernel 2 order copy (λ a. a) 14 ≡ moved copy (λ a. a) 14
batch_memcpy_kernel-moved_example =
    batch_memcpy_kernel-moved 2 order copy (λ a. a) (omega arith) lanes (inl (omega arith)) 14

abbrev state : Tensor
state = record { data_ptr = 4096; element_size = 2; shape = 5 ∷ 8 ∷ []; strides = 8 ∷ 1 ∷ [] }

abbrev groups : List (List Layer)
groups =
    (record { num_shapes = 2; kv_cache = state ∷ state ∷ []; copy_funcs = conv ∷ temporal ∷ [] }
      ∷ [])
    ∷ []

abbrev copy_spec : CopyFunc → Tensor → List ℕ → ℕ → ℕ → ℕ × ℕ
copy_spec f t block_ids column n = (t.data_ptr + column, 8)

abbrev requests : List Request
requests =
    record {
      src_block_idx = 0;
      dest_block_idx = 1;
      accept_token_bias = 0;
      block_ids = (3 ∷ 4 ∷ []) ∷ [];
    }
    ∷ []
