-- ===== src/Ple/Setup.antt =====
-- The checks that _setup_table of src/vllm_ple_mmap.py makes of the shard files before it builds the
-- table, and what MmapPleTable.__init__ makes of them. np.memmap is a parameter: what is at a path and
-- offset, mapped as some rows of some bytes each. All shards are mapped with one width, `__cols__`;
-- the width that the header of a shard gives is not among what _find_shards returns.
mod Complete
mod Serve
mod Examples
use qwen3_8_flash_dgx_auto_r.Common.{
  ℕ, zero, suc, ◌+◌, ◌-◌, ◌*◌, ◌/◌, min, max, Bool, true, false, not, ◌||◌, ◌&&◌, List, [], ◌∷◌,
  Option, none, some, keys, is_empty, ltb, ◌==◌, if◌then◌else◌, length, elem, lookup, ℕ_discrete,
}
use qwen3_8_flash_dgx_auto_r.Ple.Table.{MmapPleTable}

pub data SetupFault : Type 0 where
  no_shards wrong_width wrong_dtype no_scale incomplete wrong_rows : SetupFault

pub data Setup {ℓ} (A : Type ℓ) : Type ℓ where
  table : A → Setup A
  refused : SetupFault → Setup A

-- `math.ceil(vocab / parts)`, for a positive `parts`.
pub ceil_div : ℕ → ℕ → ℕ
ceil_div a b = (a + (b - 1)) / b

-- `max(0, min(shard_size, vocab - idx * shard_size))`; the subtraction stops at 0 here, as `max` does.
pub expected_rows : ℕ → ℕ → ℕ → ℕ
expected_rows vocab shard_size idx = min shard_size (vocab - idx * shard_size)

-- `range(parts)`, from `i` on.
pub range_from : ℕ → ℕ → List ℕ
range_from i zero = []
range_from i (suc n) = i ∷ range_from (i + 1) n

-- `set(xs) - set(ys)`
pub difference : List ℕ → List ℕ → List ℕ
unfolding elem
difference [] ys = []
difference (x ∷ xs) ys =
    let rest = difference xs ys in if elem ℕ_discrete x ys then rest else x ∷ rest

-- `max(shards) + 1`
slots : List ℕ → ℕ
slots [] = 0
slots (i ∷ is) = max (i + 1) (slots is)

-- What _find_shards returns beside the shards: `__cols__`, the item size of the dtype, whether the dtype is in _TABLE_DTYPES and
-- in _FP8_DTYPES, and whether there is a scale entry; `has_buffer` says that the layer has its scale.
pub record ShardHeader : Type 0 where
  pub cols : ℕ
  pub item_bytes : ℕ
  pub is_supported : Bool
  pub is_fp8 : Bool
  pub has_scale : Bool
  pub has_buffer : Bool

-- The result of _find_shards, after `shards.pop("__cols__")`.
-- A path and an offset, and the number of rows.
pub record ShardFile (At : Type 0) : Type 0 where
  pub at : At
  pub rows : ℕ

abbrev pub Shards : Type 0 → Type 0
Shards At = List (ℕ × ShardFile At)

module _ {At : Type 0} where
  -- The loop `for idx, (_p, _o, rows) in shards.items()`.
  pub have_expected : ℕ → ℕ → Shards At → Bool
  unfolding expected_rows
  have_expected vocab shard_size [] = true
  have_expected vocab shard_size ((idx, s) ∷ shards) =
      let rest = have_expected vocab shard_size shards in
      if s.rows == expected_rows vocab shard_size idx then rest else false

module _ {At Row : Type 0} (memmap : At → ℕ → ℕ → List Row) where
  -- `self.mm`: an entry for each index below `max(shards) + 1`, None where no shard has it.
  pub map_shard : ℕ → Option (ShardFile At) → Option (List Row)
  map_shard row_bytes none = none
  map_shard row_bytes (some s) = some (memmap s.at s.rows row_bytes)

  mm_from : ℕ → Shards At → List ℕ → List (Option (List Row))
  unfolding lookup map_shard
  mm_from row_bytes shards [] = []
  mm_from row_bytes shards (i ∷ is) =
      map_shard row_bytes (lookup ℕ_discrete i shards) ∷ mm_from row_bytes shards is

  -- MmapPleTable.__init__, for shards that are not empty.
  pub open_table : Shards At → ℕ → ℕ → ℕ → ℕ → MmapPleTable Row
  unfolding slots range_from mm_from
  open_table shards shard_size row_bytes chunk fast_rows = record {
    shard_size = shard_size;
    chunk = max 1 chunk;
    fast_rows = fast_rows;
    mm = mm_from row_bytes shards (range_from 0 (slots (keys shards)));
  }

  -- _setup_table from the result of _find_shards on.
  pub setup_table : ℕ → ℕ → ℕ → ShardHeader → ℕ → ℕ → Shards At → Setup (MmapPleTable Row)
  unfolding ceil_div have_expected open_table range_from difference
  setup_table vocab parts head_dim header chunk fast_rows shards =
      let shard_size = ceil_div vocab parts in
      if is_empty shards
      then refused no_shards
      else if not (header.cols == head_dim)
      then refused wrong_width
      else if not header.is_supported
      then refused wrong_dtype
      else if header.is_fp8 && not header.has_buffer && not header.has_scale
      then refused no_scale
      else if not (is_empty (difference (range_from 0 parts) (keys shards)))
          || not (is_empty (difference (keys shards) (range_from 0 parts)))
      then refused incomplete
      else if have_expected vocab shard_size shards
      then table (open_table shards shard_size (header.cols * header.item_bytes) chunk fast_rows)
      else refused wrong_rows
