-- ===== src/Mamba/Batch.antt =====
-- The copies that preprocess_mamba makes on its scalar path, in src/mamba_utils_guarded.py:
-- MambaCopyBuffers, collect_mamba_copy_meta, do_mamba_copy_block, batch_memcpy and its kernel. The
-- copy functions of vLLM are a parameter: for a function, a state, the request's blocks, a column
-- and an offset they give a start address and a number of elements. An IndexError and a failed
-- assertion are `none`. A memory is the byte at each address; the lanes of a block load and store in
-- some order, which is a parameter, but all load before the first stores where there is a barrier.
mod Memmove
mod Capacity
mod Examples
use qwen3_8_flash_dgx_auto_r.Common.{
  ℕ, zero, suc, ◌+◌, ◌-◌, ◌*◌, Bool, true, false, ◌&&◌, List, [], ◌∷◌, ◌++◌, Option, none, some,
  ltb, leb, ◌==◌, if◌then◌else◌, length, get_elem?,
}
use qwen3_8_flash_dgx_auto_r.Mamba.Copy.{Copy}
use qwen3_8_flash_dgx_auto_r.Mamba.Layout.{Tensor, CopyFunc, Layer, nth, total_states}

abbrev pub Memory : Type 0
Memory = ℕ → ℕ

-- The loads of all lanes of the block at `i` before the stores.
pub store_block : ℕ → Copy → ℕ → Memory → Memory
store_block block c i mem a =
    if leb (c.dst + i) a && ltb a (c.dst + i + block) && ltb a (c.dst + c.size)
    then mem (c.src + (a - c.dst))
    else mem a

-- The lane `lane` of the block at `i`.
pub store_lane : Copy → ℕ → ℕ → Memory → Memory
store_lane c i lane mem a =
    if ltb (i + lane) c.size && (a == (c.dst + i + lane)) then mem (c.src + i + lane) else mem a

pub store_lanes : Copy → ℕ → List ℕ → Memory → Memory
unfolding store_lane
store_lanes c i [] mem = mem
store_lanes c i (lane ∷ lanes) mem = store_lanes c i lanes (store_lane c i lane mem)

pub is_left_overlap : Copy → Bool
is_left_overlap c = ltb c.dst c.src && ltb c.src (c.dst + c.size)

-- `for i in range(0, size, BLOCK_SIZE)` from `i` on, on fuel.
pub block_loop : ℕ → (ℕ → List ℕ) → Copy → ℕ → ℕ → Memory → Memory
unfolding store_block store_lanes is_left_overlap
block_loop block order c zero i mem = mem
block_loop block order c (suc fuel) i mem =
    let next =
      if is_left_overlap c then store_block block c i mem else store_lanes c i (order i) mem in
    let rest = block_loop block order c fuel (i + block) next in if ltb i c.size then rest else mem

-- batch_memcpy_kernel, for one program; the fuel is the size.
pub batch_memcpy_kernel : ℕ → (ℕ → List ℕ) → Copy → Memory → Memory
unfolding block_loop
batch_memcpy_kernel block order c mem = block_loop block order c c.size 0 mem

-- batch_memcpy, whose programs are run in order.
pub batch_memcpy : (ℕ → List ℕ) → List Copy → Memory → Memory
unfolding batch_memcpy_kernel
batch_memcpy order [] mem = mem
batch_memcpy order (c ∷ cs) mem = batch_memcpy order cs (batch_memcpy_kernel 1024 order c mem)

-- src_ptrs, dst_ptrs and sizes up to `offset`, with their length.
pub record Buffers : Type 0 where
  pub capacity : ℕ
  pub entries : List Copy

-- The buffers of MambaCopyBuffers.create, for the layers of the Mamba groups.
pub create : ℕ → List (List Layer) → Buffers
create max_num_reqs groups = record { capacity = max_num_reqs * total_states groups; entries = [] }

-- `do_mamba_copy_block`
pub do_mamba_copy_block : (ℕ → List ℕ) → Buffers → Memory → Memory
unfolding batch_memcpy
do_mamba_copy_block order bufs mem =
    if length bufs.entries == 0 then mem else batch_memcpy order bufs.entries mem

-- The three stores at `offset`.
pub put : Copy → Buffers → Option Buffers
put c bufs =
    if ltb (length bufs.entries) bufs.capacity
    then some (record bufs { entries = bufs.entries ++ c ∷ [] })
    else none

abbrev then_put : Option Buffers → (Buffers → Option Buffers) → Option Buffers
then_put none next = none
then_put (some bufs) next = next bufs

-- `start_addr` with `num_elements`, and `state[dest_block_id].data_ptr()`.
pub state_copy : ℕ → Tensor → ℕ × ℕ → Copy
state_copy dest_block_id t (start_addr, num_elements) = record {
  src = start_addr;
  dst = t.data_ptr + dest_block_id * (nth t.strides 0 * t.element_size);
  size = num_elements * t.element_size;
}

-- The arguments of collect_mamba_copy_meta: columns, the bias, and the request's block ids by group.
pub record Request : Type 0 where
  pub src_block_idx : ℕ
  pub dest_block_idx : ℕ
  pub accept_token_bias : ℕ
  pub block_ids : List (List ℕ)

module _ (copy_spec : CopyFunc → Tensor → List ℕ → ℕ → ℕ → ℕ × ℕ) (r : Request) where
  -- `for state, state_copy_func in zip(kv_caches, state_copy_funcs)`
  collect_states : List ℕ → ℕ → List Tensor → List CopyFunc → Buffers → Option Buffers
  unfolding state_copy put
  collect_states block_ids dest_block_id [] fs bufs = some bufs
  collect_states block_ids dest_block_id (t ∷ ts) [] bufs = some bufs
  collect_states block_ids dest_block_id (t ∷ ts) (f ∷ fs) bufs =
      let spec = copy_spec f t block_ids r.src_block_idx (r.accept_token_bias + 1) in
      then_put (put (state_copy dest_block_id t spec) bufs)
        (collect_states block_ids dest_block_id ts fs)

  -- `for layer_name in layer_names`
  collect_layers : List ℕ → ℕ → List Layer → Buffers → Option Buffers
  unfolding collect_states
  collect_layers block_ids dest_block_id [] bufs = some bufs
  collect_layers block_ids dest_block_id (l ∷ ls) bufs =
      then_put
        (if length l.kv_cache == l.num_shapes
          then collect_states block_ids dest_block_id l.kv_cache l.copy_funcs bufs
          else none)
        (collect_layers block_ids dest_block_id ls)

  collect_group : List ℕ → Option ℕ → List Layer → Buffers → Option Buffers
  unfolding collect_layers
  collect_group block_ids none ls bufs = none
  collect_group block_ids (some dest_block_id) ls bufs =
      collect_layers block_ids dest_block_id ls bufs

  -- `for mamba_group_id in mamba_group_ids`
  collect_groups : List (List ℕ) → List (List Layer) → Buffers → Option Buffers
  unfolding collect_group
  collect_groups all_ids [] bufs = some bufs
  collect_groups [] (ls ∷ groups) bufs = none
  collect_groups (block_ids ∷ all_ids) (ls ∷ groups) bufs =
      then_put (collect_group block_ids (get_elem? block_ids r.dest_block_idx) ls bufs)
        (collect_groups all_ids groups)

  -- collect_mamba_copy_meta
  pub collect_mamba_copy_meta : List (List Layer) → Buffers → Option Buffers
  unfolding collect_groups
  collect_mamba_copy_meta groups bufs =
      if (r.src_block_idx == r.dest_block_idx) && (r.accept_token_bias == 0)
      then some bufs
      else collect_groups r.block_ids groups bufs

-- The calls of the loop of preprocess_mamba, on its scalar path.
pub collect_requests :
    (CopyFunc → Tensor → List ℕ → ℕ → ℕ → ℕ × ℕ)
    → List (List Layer)
    → List Request
    → Buffers
    → Option Buffers
unfolding collect_mamba_copy_meta
collect_requests copy_spec groups [] bufs = some bufs
collect_requests copy_spec groups (r ∷ rs) bufs =
    then_put (collect_mamba_copy_meta copy_spec r groups bufs)
      (collect_requests copy_spec groups rs)
