-- ===== src/Mamba/Copy.antt =====
-- _copy_mamba_state_block of src/mamba_utils_guarded.py: which bytes one call for a state and a
-- request copies, by the block ids that it reads from the request's row of the block table. Memory
-- that is read through a wild column is any integer. The parallel lanes over the rows of a
-- dim-first state are the rows in order.
pub mod Inside
mod Examples
use qwen3_8_flash_dgx_auto_r.Common.{
  ℕ, zero, suc, ◌+◌, ◌-◌, ◌*◌, Bool, true, false, not, ◌&&◌, ◌||◌, List, [], ◌∷◌, ◌++◌, Option,
  none, some, ltb, ◌==◌, if◌then◌else◌,
}
use qwen3_8_flash_dgx_auto_r.Common.Int.{ℤ, pos, negsuc, add_ℕ}

-- The metadata of one (layer, state-type) slot, in bytes and blocks.
pub record StatePool : Type 0 where
  pub base_addr : ℕ
  pub block_stride : ℕ
  pub elem_size : ℕ
  pub inner_size : ℕ
  pub conv_width : ℕ
  pub dim_rows : ℕ
  pub row_stride : ℕ
  pub num_blocks : ℕ

pub record Copy : Type 0 where
  pub src : ℕ
  pub dst : ℕ
  pub size : ℕ

pub data Outcome : Type 0 where
  idle guard_hit : Outcome
  copies : List Copy → Outcome

-- `block_id < 0 or block_id >= num_blocks` is `none`.
pub valid_id : ℕ → ℤ → Option ℕ
valid_id num_blocks (negsuc n) = none
valid_id num_blocks (pos n) = if ltb n num_blocks then some n else none

module _ (p : StatePool) where
  pub block_addr : ℕ → ℕ
  block_addr id = p.base_addr + id * p.block_stride

  pub token_bytes : ℕ
  token_bytes = p.inner_size * p.elem_size

  -- The rows of one token in the dim-first layout, from `row` on.
  row_copies : ℕ → ℕ → ℕ → ℕ → ℕ → ℕ → List Copy
  row_copies src dst bias token row zero = []
  row_copies src dst bias token row (suc n) =
      record {
        src = src + row * p.row_stride + (token + bias) * p.elem_size;
        dst = dst + row * p.row_stride + token * p.elem_size;
        size = p.elem_size;
      }
      ∷ row_copies src dst bias token (row + 1) n

  -- `for token_idx in range(0, num_dst_tokens)` in the dim-first layout, from `token` on.
  dim_first_copies : ℕ → ℕ → ℕ → ℕ → ℕ → List Copy
  unfolding row_copies
  dim_first_copies src dst bias token zero = []
  dim_first_copies src dst bias token (suc n) =
      row_copies src dst bias token 0 p.dim_rows ++ dim_first_copies src dst bias (token + 1) n

  -- The token by token shift within one block, from `token` on.
  token_copies : ℕ → ℕ → ℕ → ℕ → ℕ → List Copy
  unfolding token_bytes
  token_copies src dst bias token zero = []
  token_copies src dst bias token (suc n) =
      record {
        src = src + (token + bias) * token_bytes;
        dst = dst + token * token_bytes;
        size = token_bytes;
      }
      ∷ token_copies src dst bias (token + 1) n

  -- The three copies, for valid blocks.
  dim_first_copy : ℕ → ℕ → ℕ → Outcome
  unfolding block_addr dim_first_copies
  dim_first_copy src_id dst_id bias =
      copies (dim_first_copies (block_addr src_id) (block_addr dst_id) bias 0 (p.conv_width - bias))

  conv_copy : ℕ → ℕ → ℕ → Outcome
  unfolding block_addr token_bytes token_copies
  conv_copy src_id dst_id bias =
      let n = p.conv_width - bias in
      if not (src_id == dst_id) || (bias == 0)
      then copies (
          record {
            src = block_addr src_id + bias * token_bytes;
            dst = block_addr dst_id;
            size = n * token_bytes;
          }
          ∷ [])
      else copies (token_copies (block_addr src_id) (block_addr dst_id) bias 0 n)

  temporal_copy : ℕ → ℕ → Outcome
  unfolding block_addr token_bytes
  temporal_copy src_id dst_id =
      copies (record { src = block_addr src_id; dst = block_addr dst_id; size = token_bytes } ∷ [])

  -- What follows the check of the source block.
  checked : Option ℕ → (ℕ → Outcome) → Outcome
  checked none copy = guard_hit
  checked (some id) copy = copy id

  conv_branch : Bool → ℕ → ℕ → ℕ → Outcome
  unfolding dim_first_copy conv_copy
  conv_branch dim_first dst_id bias src_id =
      if dim_first then dim_first_copy src_id dst_id bias else conv_copy src_id dst_id bias

  -- What follows the check of the destination block.
  copy_to : Bool → (ℤ → ℤ) → ℤ → ℕ → ℕ → ℕ → Outcome
  unfolding valid_id conv_branch temporal_copy checked
  copy_to dim_first table src_col bias tile dst_id =
      if ltb 0 p.conv_width
      then (if ltb 0 tile
          then idle
          else checked (valid_id p.num_blocks (table src_col)) (conv_branch dim_first dst_id bias))
      else checked (valid_id p.num_blocks (table (add_ℕ src_col bias)))
          (λ src_id. temporal_copy src_id dst_id)

  -- _copy_mamba_state_block; `table` is the request's row.
  pub copy_mamba_state_block : Bool → (ℤ → ℤ) → ℤ → ℤ → ℕ → ℕ → Outcome
  unfolding valid_id copy_to checked
  copy_mamba_state_block dim_first table src_col dst_col bias tile =
      checked (valid_id p.num_blocks (table dst_col)) (copy_to dim_first table src_col bias tile)
