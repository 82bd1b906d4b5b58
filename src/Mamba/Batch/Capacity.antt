-- ===== src/Mamba/Batch/Capacity.antt =====
-- The room in the buffers of MambaCopyBuffers in src/mamba_utils_guarded.py.
use qwen3_8_flash_dgx_auto_r.Common.{ℕ, ◌+◌, ◌≤◌, ◌<◌, ◌≡◌, List, Option, some, length, All}
use qwen3_8_flash_dgx_auto_r.Mamba.Copy.{Copy}
use qwen3_8_flash_dgx_auto_r.Mamba.Layout.{Tensor, CopyFunc, Layer}
use qwen3_8_flash_dgx_auto_r.Mamba.Batch.{Buffers, Request}

-- A call that goes through, and adds no more than `n` entries.
pub record IsAdded (n : ℕ) (bufs : Buffers) (made : Option Buffers) : Type 0 where
  pub after : Buffers
  pub made_of : made ≡ some after
  pub capacity_of : after.capacity ≡ bufs.capacity
  pub entries_of : length after.entries ≤ length bufs.entries + n

-- Room for `n` entries more.
abbrev Has : Buffers → ℕ → Type 0
Has bufs n = length bufs.entries + n ≤ bufs.capacity

-- What the code asserts of a layer.
abbrev pub IsDeclared : Layer → Type 0
IsDeclared l = length l.kv_cache ≡ l.num_shapes

module _ (copy_spec : CopyFunc → Tensor → List ℕ → ℕ → ℕ → ℕ × ℕ) where
  module _ (r : Request) where
    -- The request has a block in the destination column of each group.
    abbrev pub HasDest : List ℕ → Type 0
    HasDest block_ids = r.dest_block_idx < length block_ids

  -- A request of a step: a block in each group's destination column.
  abbrev pub IsReady : List (List Layer) → Request → Type 0
  IsReady groups r = All (HasDest r) r.block_ids × (length groups ≤ length r.block_ids)
