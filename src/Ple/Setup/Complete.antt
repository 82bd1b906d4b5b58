-- ===== src/Ple/Setup/Complete.antt =====
-- What the checks of _setup_table in src/vllm_ple_mmap.py are for: a table without holes.
use qwen3_8_flash_dgx_auto_r.Common.{
  ℕ, zero, suc, ◌+◌, ◌-◌, ◌*◌, ◌/◌, ◌%◌, ◌<◌, ◌≤◌, min, ◌≡◌, refl, ap, ◌∙◌, Bool, true, false, not,
  inl, inr, List, [], ◌∷◌, none, some, keys, is_empty, if◌then◌else◌, ◌||◌, ◌&&◌, ◌==◌, length,
  elem, lookup, get_elem?, ℕ_discrete, arith, Bool-cases, Option-cases, get_elem?-some,
}
use native.Mathlib.Nat.{div-add-mod, mod-lt, div-lt_iff_lt-mul, mul_comm, zero-mul, zero-add}
use qwen3_8_flash_dgx_auto_r.Common.Int.{pos}
use qwen3_8_flash_dgx_auto_r.Ple.Table.{MmapPleTable, row_at}
use qwen3_8_flash_dgx_auto_r.Ple.Table.Fast.{row_at-shard}
use qwen3_8_flash_dgx_auto_r.Ple.Setup.{
  ShardFile, Shards, map_shard, SetupFault, Setup, no_shards, wrong_width, wrong_dtype, no_scale,
  ShardHeader, incomplete, wrong_rows, ceil_div, expected_rows, range_from, difference, slots,
  have_expected, mm_from, open_table, setup_table,
}

-- The parts hold the vocabulary.
pub ceil_div_covers : (a b : ℕ) → 0 < b → a ≤ ceil_div a b * b
unfolding ceil_div
ceil_div_covers a b h = omega (arith, div-add-mod (a + (b - 1)) b, mod-lt (a + (b - 1)) h)

pub pos_of_mul : (a b c : ℕ) → c < a * b → 0 < a
pos_of_mul zero b c h = absurd (omega (arith, zero-mul b))
pos_of_mul (suc a) b c h = omega arith

pub shard_below : (vocab parts id : ℕ) → 0 < parts → id < vocab → id / ceil_div vocab parts < parts
shard_below vocab parts id positive lt =
    let size = ceil_div vocab parts in
    let covers : vocab ≤ size * parts = ceil_div_covers vocab parts positive in
    let some_size : 0 < size = pos_of_mul size parts id (omega (arith, covers, lt)) in
    (div-lt_iff_lt-mul some_size).1 (omega (arith, covers, mul_comm size parts, lt))

elem-range_from : (i n k : ℕ) → i ≤ k → k < i + n → elem ℕ_discrete k (range_from i n) ≡ true
unfolding elem range_from
elem-range_from i zero k h l = absurd (omega arith)
elem-range_from i (suc n) k h l = ground (arith, elem-range_from (i + 1) n k)

elem_of_difference :
    (xs ys : List ℕ) (k : ℕ)
    → is_empty (difference xs ys) ≡ true
    → elem ℕ_discrete k xs ≡ true
    → elem ℕ_discrete k ys ≡ true
unfolding elem difference
elem_of_difference [] ys k h m = cc
elem_of_difference (x ∷ xs) ys k h m = ground (arith, elem_of_difference xs ys k)

lt-slots : (is : List ℕ) (k : ℕ) → elem ℕ_discrete k is ≡ true → k < slots is
unfolding elem slots
lt-slots [] k m = cc
lt-slots (i ∷ is) k m = ground (arith, lt-slots is k)

module _ {At : Type 0} where
  elem_of_no_lookup :
      (shards : Shards At) (k : ℕ)
      → lookup ℕ_discrete k shards ≡ none
      → elem ℕ_discrete k (keys shards) ≡ false
  unfolding elem lookup
  elem_of_no_lookup [] k e = refl
  elem_of_no_lookup ((j, s) ∷ shards) k e = ground (arith, elem_of_no_lookup shards k)

  lookup_of_key :
      (shards : Shards At) (k : ℕ)
      → elem ℕ_discrete k (keys shards) ≡ true
      → (s : ShardFile At) × (lookup ℕ_discrete k shards ≡ some s)
  lookup_of_key shards k m = elim (Option-cases (lookup ℕ_discrete k shards)) [
    | inl e ↦ cc (elem_of_no_lookup shards k e)
    | inr found ↦ found
  ]

  rows-lookup :
      (vocab size : ℕ) (shards : Shards At) (k : ℕ) (s : ShardFile At)
      → have_expected vocab size shards ≡ true
      → lookup ℕ_discrete k shards ≡ some s
      → s.rows ≡ expected_rows vocab size k
  unfolding have_expected lookup
  rows-lookup vocab size [] k s h e = cc
  rows-lookup vocab size ((j, r) ∷ shards) k s h e =
      ground (arith, rows-lookup vocab size shards k s)

module _ {At Row : Type 0} (memmap : At → ℕ → ℕ → List Row) where
  get_elem?-mm_from :
      (row_bytes : ℕ) (shards : Shards At) (i n k : ℕ)
      → k < n
      → get_elem? (mm_from memmap row_bytes shards (range_from i n)) k
        ≡ some (map_shard memmap row_bytes (lookup ℕ_discrete (i + k) shards))
  unfolding mm_from range_from
  get_elem?-mm_from row_bytes shards i zero k h = absurd (omega arith)
  get_elem?-mm_from row_bytes shards i (suc n) zero h = ground arith
  get_elem?-mm_from row_bytes shards i (suc n) (suc k) h =
      ground (arith, get_elem?-mm_from row_bytes shards (i + 1) n k)

  module _ (vocab parts row_bytes chunk fast_rows : ℕ) (shards : Shards At) where
    abbrev pub size : ℕ
    size = ceil_div vocab parts

    abbrev pub opened : MmapPleTable Row
    opened = open_table memmap shards size row_bytes chunk fast_rows

    -- What the checks establish.
    abbrev pub AreComplete : Type 0
    AreComplete =
        (is_empty (difference (range_from 0 parts) (keys shards)) ≡ true)
        × (have_expected vocab size shards ≡ true)

    mm-shard :
        (k : ℕ)
        → elem ℕ_discrete k (keys shards) ≡ true
        → get_elem? opened.mm k ≡ some (map_shard memmap row_bytes (lookup ℕ_discrete k shards))
    unfolding open_table
    mm-shard k m =
        let e =
          get_elem?-mm_from row_bytes shards 0 (slots (keys shards)) k
            (lt-slots (keys shards) k m) in
        rw zero-add at e

    -- A row of the table: that of the id's shard, mapped with the width of the table.
    abbrev pub IsMappedRow : ℕ → Row → Type 0
    IsMappedRow id r =
        (s : ShardFile At) × (lookup ℕ_discrete (id / size) shards ≡ some s)
        × (get_elem? (memmap s.at s.rows row_bytes) (id % size) ≡ some r)

    local_is_mod : (id : ℕ) → id - id / size * size ≡ id % size
    local_is_mod id = omega (arith, div-add-mod id size, mul_comm size (id / size))

    pub opened-row :
        0 < parts
        → ((at : At) (rows : ℕ) → length (memmap at rows row_bytes) ≡ rows)
        → AreComplete
        → (id : ℕ) → id < vocab
        → (r : Row) × (row_at opened (pos id) ≡ some r) × IsMappedRow id r
    unfolding open_table expected_rows map_shard
    opened-row positive maps (none_missing, expected) id lt =
        let covers : vocab ≤ size * parts = ceil_div_covers vocab parts positive in
        let some_size : 0 < size = pos_of_mul size parts id (omega (arith, covers)) in
        let shard_lt = shard_below vocab parts id positive lt in
        let key : elem ℕ_discrete (id / size) (keys shards) ≡ true =
          elem_of_difference (range_from 0 parts) (keys shards) (id / size) none_missing
            (elem-range_from 0 parts (id / size) (omega arith) (omega (arith, shard_lt))) in
        let (s, found) = lookup_of_key shards (id / size) key in
        let rows = memmap s.at s.rows row_bytes in
        let there : get_elem? opened.mm (id / size) ≡ some (some rows) =
          mm-shard (id / size) key ∙ ap (λ v. some (map_shard memmap row_bytes v)) found in
        let count : length rows ≡ min size (vocab - id / size * size) =
          maps s.at s.rows ∙ rows-lookup vocab size shards (id / size) s expected found in
        let (r, e) = get_elem?-some rows (id % size) (
          omega
            (arith, count, div-add-mod id size, mod-lt id some_size, mul_comm size (id / size))) in
        (
          r,
          row_at-shard opened id rows there ∙ ap (get_elem? rows) (local_is_mod id) ∙ e,
          (s, found, e),
        )

    if_table :
        {b : Bool} {y : Setup (MmapPleTable Row)} (t : MmapPleTable Row) (f : SetupFault)
        → (if b then Setup.refused f else y) ≡ Setup.table t
        → (b ≡ false) × (y ≡ Setup.table t)
    if_table {b = true} t f e = cc
    if_table {b = false} t f e = (refl, e)

    has_missing : Bool
    has_missing = not (is_empty (difference (range_from 0 parts) (keys shards)))

    has_extra : Bool
    has_extra = not (is_empty (difference (keys shards) (range_from 0 parts)))

    last_check : Setup (MmapPleTable Row)
    last_check =
        if have_expected vocab size shards then Setup.table opened else Setup.refused wrong_rows

    pub accepted :
        (head_dim : ℕ) (header : ShardHeader) (t : MmapPleTable Row)
        → header.cols * header.item_bytes ≡ row_bytes
        → setup_table memmap vocab parts head_dim header chunk fast_rows shards ≡ Setup.table t
        → AreComplete × (opened ≡ t)
    unfolding setup_table has_missing has_extra last_check
    accepted head_dim header t width e =
        let (_, e1) = if_table {b = is_empty shards} t no_shards (rw width at e) in
        let (_, e2) = if_table {b = not (header.cols == head_dim)} t wrong_width e1 in
        let (_, e3) = if_table {b = not header.is_supported} t wrong_dtype e2 in
        let (_, e4) =
          if_table {b = header.is_fp8 && not header.has_buffer && not header.has_scale} t no_scale
            e3 in
        let (whole, e5) =
          if_table {b = has_missing || has_extra} {y = last_check} t incomplete e4 in
        elim (Bool-cases (have_expected vocab size shards)) [
          | inl good ↦
              let e6 : Setup.table opened ≡ Setup.table t = rw good at e5 in
              ((ground (arith, whole), good), cc e6)
          | inr bad ↦ cc (rw bad at e5)
        ]
