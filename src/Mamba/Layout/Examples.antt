-- ===== src/Mamba/Layout/Examples.antt =====
-- Tests of _populate_metadata of src/mamba_utils_guarded.py: one layer with a conv state of three
-- rows of eight elements, and a temporal state.
use qwen3_8_flash_dgx_auto_r.Common.{
  ℕ, ◌≡◌, ◌<◌, refl, false, List, [], ◌∷◌, none, some, length, get_elem?, All, ap, some_injective,
  arith,
}
use qwen3_8_flash_dgx_auto_r.Common.Int.{pos}
use qwen3_8_flash_dgx_auto_r.Mamba.Copy.{StatePool}
use qwen3_8_flash_dgx_auto_r.Mamba.Copy.Inside.{}
use qwen3_8_flash_dgx_auto_r.Mamba.Kernels.{Slots, Launch, postprocess_mamba_fused_kernel}
use qwen3_8_flash_dgx_auto_r.Mamba.Layout.{
  Tensor, Layer, BlockTable, Context, conv, temporal, other, populate_metadata, finish_metadata,
  total_states, layer_states, group_entries, layer_entries, state_entries, state_pool, conv_pool,
  temporal_pool, base_pool, common_stride, numel, nth, inner_numel, has_blocks, initialize,
}
use qwen3_8_flash_dgx_auto_r.Mamba.Layout.Memory.{AreWithin, group_tensors}
use qwen3_8_flash_dgx_auto_r.Mamba.Layout.Fits.{IsStrided}
use qwen3_8_flash_dgx_auto_r.Mamba.Layout.Safety.{
  AreStrided, LayerIsStrided, populate_metadata-inside,
}

abbrev window : Tensor
window = record {
  data_ptr = 4096;
  element_size = 2;
  shape = 5 ∷ 3 ∷ 8 ∷ [];
  strides = 40 ∷ 8 ∷ 1 ∷ [];
}

abbrev hidden : Tensor
hidden = record {
  data_ptr = 8192;
  element_size = 4;
  shape = 5 ∷ 2 ∷ 4 ∷ [];
  strides = 40 ∷ 4 ∷ 1 ∷ [];
}

abbrev layer : Layer
layer = record {
  num_shapes = 2;
  kv_cache = window ∷ hidden ∷ [];
  copy_funcs = conv ∷ temporal ∷ [];
}

abbrev groups : List (List Layer)
groups = (layer ∷ []) ∷ []

abbrev tables : List BlockTable
tables = record { data_ptr = 16; stride = 64 } ∷ []

abbrev window_pool : StatePool
window_pool = record {
  base_addr = 4096;
  block_stride = 80;
  elem_size = 2;
  inner_size = 8;
  conv_width = 3;
  dim_rows = 0;
  row_stride = 0;
  num_blocks = 5;
}

abbrev hidden_pool : StatePool
hidden_pool = record {
  base_addr = 8192;
  block_stride = 160;
  elem_size = 4;
  inner_size = 8;
  conv_width = 0;
  dim_rows = 0;
  row_stride = 0;
  num_blocks = 5;
}

abbrev context : Context
context = record {
  states = (window_pool, 0) ∷ (hidden_pool, 0) ∷ [];
  block_table_stride_req = 64;
  block_tables = tables;
}

populated : populate_metadata false groups tables ≡ some context
unfolding populate_metadata finish_metadata total_states layer_states group_entries layer_entries
    state_entries state_pool conv_pool temporal_pool base_pool common_stride numel nth inner_numel
    has_blocks
populated = refl

again_test : initialize false groups [] (some context) ≡ some context
unfolding initialize
again_test = refl

-- A copy function that is neither of the two.
unsupported_test : state_pool false other window ≡ none
unfolding state_pool
unsupported_test = refl

strided : All (All (LayerIsStrided false)) groups
unfolding AreStrided IsStrided inner_numel nth numel
strided = omega arith

abbrev slots : Slots
slots = record {
  num_accepted_tokens = λ slot. 2;
  mamba_state_idx = λ slot. pos 0;
  num_scheduled_tokens = λ slot. 3;
  num_computed_tokens = λ slot. 4;
  num_draft_tokens = λ slot. 2;
}

abbrev launch : Launch
launch = record {
  num_reqs = 1;
  idx_mapping = none;
  block_table = λ row col. pos 1;
  dim_first = false;
}

one_state : 0 < total_states groups
unfolding total_states layer_states
one_state = omega arith

populate_metadata-inside_example :
    (p : StatePool) × (group : ℕ) × (t : Tensor) × (get_elem? context.states 0 ≡ some (p, group))
    × (group < length context.block_tables)
    × (get_elem? (group_tensors groups) 0 ≡ some t)
    × AreWithin t (postprocess_mamba_fused_kernel p 4 false launch slots 0 0 0).1
populate_metadata-inside_example =
    populate_metadata-inside false groups tables context strided populated 0 one_state launch 4
      false slots 0 0
      (λ p group slot found conv.
        let width : 3 ≡ p.conv_width = ap (λ e. e.0.conv_width) (some_injective found) in
        omega (arith, width))
