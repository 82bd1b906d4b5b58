-- ===== src/Mamba/Layout.antt =====
-- The metadata of MambaSpecDecodeGPUContext in src/mamba_utils_guarded.py: what _populate_metadata
-- records of each state tensor, and the checks around it. A tensor is what torch says of it. A failed
-- assertion and a ValueError are `none`.
mod Fits
mod Memory
pub mod Safety
mod Examples
use qwen3_8_flash_dgx_auto_r.Common.{
  ℕ, zero, suc, ◌+◌, ◌*◌, Bool, true, false, not, ◌&&◌, List, [], ◌∷◌, ◌++◌, Option, none, some,
  ltb, ◌==◌, if◌then◌else◌, length, get_elem?, get_or,
}
use qwen3_8_flash_dgx_auto_r.Mamba.Copy.{StatePool}

pub record Tensor : Type 0 where
  pub data_ptr : ℕ
  pub element_size : ℕ
  pub shape : List ℕ
  pub strides : List ℕ

-- get_conv_copy_spec, get_temporal_copy_spec, or another function.
pub data CopyFunc : Type 0 where
  conv temporal other : CopyFunc

-- A layer: the number of shapes in its cache spec, its state tensors, its copy functions.
pub record Layer : Type 0 where
  pub num_shapes : ℕ
  pub kv_cache : List Tensor
  pub copy_funcs : List CopyFunc

pub record BlockTable : Type 0 where
  pub data_ptr : ℕ
  pub stride : ℕ

-- `numel()`
pub numel : List ℕ → ℕ
numel [] = 1
numel (n ∷ ns) = n * numel ns

-- `size(i)` and `stride(i)`
pub nth : List ℕ → ℕ → ℕ
nth ns i = get_or (get_elem? ns i) 0

-- `state[0].numel()`
pub inner_numel : List ℕ → ℕ
unfolding numel
inner_numel [] = 1
inner_numel (n ∷ ns) = numel ns

pub has_blocks : Tensor → Bool
has_blocks t = ltb 1 (length t.shape)

-- What every state records.
base_pool : Tensor → StatePool
unfolding numel nth has_blocks
base_pool t = record {
  base_addr = t.data_ptr;
  block_stride = (if has_blocks t then nth t.strides 0 else numel t.shape) * t.element_size;
  elem_size = t.element_size;
  inner_size = 0;
  conv_width = 0;
  dim_rows = 0;
  row_stride = 0;
  num_blocks = if has_blocks t then nth t.shape 0 else 1;
}

-- The conv state, in the dim-first layout or not.
conv_pool : Bool → Tensor → StatePool
unfolding base_pool nth
conv_pool true t = record (base_pool t) {
  conv_width = nth t.shape 2;
  inner_size = 1;
  dim_rows = nth t.shape 1;
  row_stride = nth t.strides 1 * t.element_size;
}
conv_pool false t = record (base_pool t) {
  conv_width = nth t.shape 1;
  inner_size = nth t.strides 1;
}

temporal_pool : Tensor → StatePool
unfolding base_pool inner_numel has_blocks
temporal_pool t = record (base_pool t) {
  inner_size = if has_blocks t then inner_numel t.shape else 1;
}

-- The body of the loop over the states of a layer.
pub state_pool : Bool → CopyFunc → Tensor → Option StatePool
unfolding conv_pool temporal_pool
state_pool dim_first conv t = if length t.shape == 3 then some (conv_pool dim_first t) else none
state_pool dim_first temporal t = some (temporal_pool t)
state_pool dim_first other t = none

abbrev pub Entry : Type 0
Entry = StatePool × ℕ

abbrev pub prepend : Option StatePool → ℕ → Option (List Entry) → Option (List Entry)
prepend none group rest = none
prepend (some p) group none = none
prepend (some p) group (some es) = some ((p, group) ∷ es)

abbrev pub join : Option (List Entry) → Option (List Entry) → Option (List Entry)
join none rest = none
join (some es) none = none
join (some es) (some fs) = some (es ++ fs)

-- `for state_type_idx, state in enumerate(kv_caches)`, with the copy functions from there on.
pub state_entries : Bool → ℕ → List Tensor → List CopyFunc → Option (List Entry)
unfolding state_pool
state_entries dim_first group [] fs = some []
state_entries dim_first group (t ∷ ts) [] = none
state_entries dim_first group (t ∷ ts) (f ∷ fs) =
    prepend (state_pool dim_first f t) group (state_entries dim_first group ts fs)

-- The loop over the layers of a group.
pub layer_entries : Bool → ℕ → List Layer → Option (List Entry)
unfolding state_entries
layer_entries dim_first group [] = some []
layer_entries dim_first group (l ∷ ls) =
    join
      (if length l.kv_cache == l.num_shapes
        then state_entries dim_first group l.kv_cache l.copy_funcs
        else none)
      (layer_entries dim_first group ls)

-- `for group_local_idx, mamba_group_id in enumerate(...)`, from `group` on.
pub group_entries : Bool → ℕ → List (List Layer) → Option (List Entry)
unfolding layer_entries
group_entries dim_first group [] = some []
group_entries dim_first group (ls ∷ groups) =
    join (layer_entries dim_first group ls) (group_entries dim_first (group + 1) groups)

unfoldable pub layer_states : List Layer → ℕ
layer_states [] = 0
layer_states (l ∷ ls) = length l.copy_funcs + layer_states ls

-- `total_states` of create: the copy functions of all layers of the groups.
unfoldable pub total_states : List (List Layer) → ℕ
unfolding layer_states
total_states [] = 0
total_states (ls ∷ groups) = layer_states ls + total_states groups

-- `len({bt.stride(0) for bt in block_tables}) == 1`, with the stride.
pub common_stride : List BlockTable → Option ℕ
common_stride [] = none
common_stride (b ∷ []) = some b.stride
common_stride (b ∷ c ∷ bs) = if b.stride == c.stride then common_stride (c ∷ bs) else none

pub record Context : Type 0 where
  pub states : List Entry
  pub block_table_stride_req : ℕ
  pub block_tables : List BlockTable

abbrev with_stride : List Entry → List BlockTable → Option ℕ → Option Context
with_stride es tables none = none
with_stride es tables (some stride) =
    some (record { states = es; block_table_stride_req = stride; block_tables = tables })

-- The assertions at the end of _populate_metadata.
finish_metadata : ℕ → ℕ → List BlockTable → Option (List Entry) → Option Context
unfolding common_stride
finish_metadata num_states num_groups tables none = none
finish_metadata num_states num_groups tables (some es) =
    if (length es == num_states) && (length tables == num_groups)
    then with_stride es tables (common_stride tables)
    else none

-- _populate_metadata, of a context that create made for these groups.
pub populate_metadata : Bool → List (List Layer) → List BlockTable → Option Context
unfolding group_entries total_states finish_metadata
populate_metadata dim_first groups tables =
    finish_metadata (total_states groups) (length groups) tables (group_entries dim_first 0 groups)

-- initialize_from_forward_context: only a context that is not initialised is populated.
pub initialize : Bool → List (List Layer) → List BlockTable → Option Context → Option Context
unfolding populate_metadata
initialize dim_first groups tables (some ctx) = some ctx
initialize dim_first groups tables none = populate_metadata dim_first groups tables
