-- ===== src/Ple/Setup/Serve.antt =====
-- From the shard files to the rows of a batch: _setup_table and then gather.
use qwen3_8_flash_dgx_auto_r.Common.{
  ℕ, ◌*◌, ◌/◌, ◌%◌, ◌<◌, ◌≡◌, refl, sym, ap, ◌∙◌, subst, max, Bool, length, lookup, get_elem?,
  ℕ_discrete, List, [], ◌∷◌, some, map, All, arith,
}
use qwen3_8_flash_dgx_auto_r.Common.Int.{pos}
use qwen3_8_flash_dgx_auto_r.Ple.Table.{MmapPleTable, Unique, ok, gather, row_at, rows_at}
use qwen3_8_flash_dgx_auto_r.Ple.Table.Gather.{gather-rows, rows_at-empty, rows_at-cons}
use qwen3_8_flash_dgx_auto_r.Ple.Setup.{
  ShardFile, ShardHeader, Shards, Setup, ceil_div, open_table, setup_table,
}
use qwen3_8_flash_dgx_auto_r.Ple.Setup.Complete.{
  ceil_div_covers, pos_of_mul, AreComplete, opened, opened-row, accepted, shard_below,
}

module _ {At Row : Type 0} (memmap : At → ℕ → ℕ → List Row) (vocab parts head_dim : ℕ)
    (header : ShardHeader) (chunk fast_rows : ℕ) (shards : Shards At) (t : MmapPleTable Row) where
  abbrev row_bytes : ℕ
  row_bytes = header.cols * header.item_bytes

  abbrev pub IsAccepted : Type 0
  IsAccepted = setup_table memmap vocab parts head_dim header chunk fast_rows shards ≡ Setup.table t

  abbrev setup_checked :
      IsAccepted
      → AreComplete memmap vocab parts row_bytes chunk fast_rows shards
        × (opened memmap vocab parts row_bytes chunk fast_rows shards ≡ t)
  setup_checked =
      accepted memmap vocab parts row_bytes chunk fast_rows shards head_dim header t refl

  size_is_pos : 0 < vocab → 0 < parts → IsAccepted → 0 < t.shard_size
  unfolding open_table
  size_is_pos some_id positive e =
      subst (λ u. 0 < u.shard_size) (setup_checked e).1
        (pos_of_mul (ceil_div vocab parts) parts 0
          (omega (arith, some_id, ceil_div_covers vocab parts positive)))

  chunk_is_pos : IsAccepted → 0 < t.chunk
  unfolding open_table
  chunk_is_pos e =
      let one : 0 < max 1 chunk = omega arith in subst (λ u. 0 < u.chunk) (setup_checked e).1 one

  -- The row of an id in the shard tensor that should have it, as wide as its own header says: shard
  -- id / size has the row id % size.
  abbrev pub IsRowOf : (ℕ → ℕ) → ℕ → Row → Type 0
  IsRowOf width id r =
      let k = id / ceil_div vocab parts in
      (s : ShardFile At) × (lookup ℕ_discrete k shards ≡ some s)
      × (get_elem? (memmap s.at s.rows (width k * header.item_bytes)) (id % ceil_div vocab parts)
          ≡ some r)

  abbrev pub AreRowsOf : (ℕ → ℕ) → List ℕ → List Row → Type 0
  AreRowsOf width [] [] = Unit
  AreRowsOf width [] (r ∷ rs) = ⊥
  AreRowsOf width (n ∷ ns) [] = ⊥
  AreRowsOf width (n ∷ ns) (r ∷ rs) = IsRowOf width n r × AreRowsOf width ns rs

  module _ (width : ℕ → ℕ) (positive : 0 < parts)
      (maps : (at : At) (rows bytes : ℕ) → length (memmap at rows bytes) ≡ rows)
      (one_width : (k : ℕ) → k < parts → width k ≡ header.cols) where
    IsRowOf-id :
        IsAccepted
        → (id : ℕ) → id < vocab
        → (r : Row) × (row_at t (pos id) ≡ some r) × IsRowOf width id r
    IsRowOf-id e id lt =
        let (complete, same) = setup_checked e in
        let (r, found, (s, at, row)) =
          opened-row memmap vocab parts row_bytes chunk fast_rows shards positive
            (λ at rows. maps at rows row_bytes) complete id lt in
        let k = id / ceil_div vocab parts in
        let bytes : row_bytes ≡ width k * header.item_bytes =
          ap (λ w. w * header.item_bytes)
            (sym (one_width k (shard_below vocab parts id positive lt))) in
        (
          r,
          ap (λ u. row_at u (pos id)) (sym same) ∙ found,
          (
            s,
            at,
            subst (λ b. get_elem? (memmap s.at s.rows b) (id % ceil_div vocab parts) ≡ some r) bytes
                row,
          ),
        )

    have_rows :
        IsAccepted
        → (ids : List ℕ) → All (λ n. n < vocab) ids
        → (rows : List Row) × (rows_at t (map pos ids) ≡ some rows) × AreRowsOf width ids rows
    have_rows e [] h = ([], rows_at-empty t, tt)
    have_rows e (n ∷ ns) (lt, h) =
        let (r, at, of) = IsRowOf-id e n lt in
        let (rs, ats, ofs) = have_rows e ns h in
        (r ∷ rs, rows_at-cons t (pos n) (map pos ns) at ats, (of, ofs))

    -- For a vocabulary and a number of parts that are not 0, a memmap that has as many rows as it is
    -- asked for, and shards that all have the width that _find_shards returns: once _setup_table
    -- accepts them, a gather of any ids of the vocabulary, in any order and however often, returns
    -- for each id the row id % shard_size of the tensor of shard id / shard_size.
    pub setup_table-gather :
        (np : Unique) (ids : List ℕ) (already_unique : Bool)
        → 0 < vocab
        → IsAccepted
        → All (λ n. n < vocab) ids
        → (rows : List Row) × AreRowsOf width ids rows
          × (gather t np (map pos ids) already_unique ≡ ok (map some rows))
    setup_table-gather np ids already_unique some_id e inside =
        let (rows, found, of) = have_rows e ids inside in
        (
          rows,
          of,
          gather-rows t np (map pos ids) already_unique rows (size_is_pos some_id positive e)
              (chunk_is_pos e) found,
        )
