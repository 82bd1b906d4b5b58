-- ===== src/Ple/Table/Inline.antt =====
-- The branch of _gather for few ids, src/vllm_ple_mmap.py.
use qwen3_8_flash_dgx_auto_r.Common.{
  ℕ, ◌<◌, ◌≡◌, sym, ap, ◌∙◌, List, [], none, some, true, map, true, length, length-map, replicate,
  get_elem?, get_elem?-map, get_elem?-of_map, All, All-intro, All-get, elem, ℕ_discrete,
}
use qwen3_8_flash_dgx_auto_r.Common.Int.{ℤ, pos}
use qwen3_8_flash_dgx_auto_r.Ple.Table.{
  MmapPleTable, Unique, ok, to_ℕ, shard_of, gather_fast, rows_at,
}
use qwen3_8_flash_dgx_auto_r.Ple.Table.Fast.{
  HasRow, HasShard, filled, rev_append, copy_shards-filled, elem-rev_append, filled-nothing,
  filled-All, row_at→shard, rows_at→HasRows, HasRows→inside, HasRows→HasRow,
}

-- Every element of the array stands somewhere in its `unique`.
pub unique-all :
    (np : Unique) (xs : List ℤ) (i : ℕ) (z : ℤ)
    → get_elem? xs i ≡ some z
    → (k : ℕ) × (get_elem? (np.unique xs) k ≡ some z)
unique-all np xs i z at =
    let here = ap (λ l. get_elem? l i) (np.unique-inverse xs) ∙ get_elem?-map some xs i at in
    let (k, _, e) = get_elem?-of_map (λ j. get_elem? (np.unique xs) j) (np.inverse xs) i here in
    (k, e)

module _ {Row : Type 0} (t : MmapPleTable Row) (np : Unique) where
  -- The shards that the loop visits, for ids `ns`.
  abbrev visited : List ℕ → List ℕ
  visited ns = map to_ℕ (np.unique (map (λ n. pos (shard_of t n)) ns))

  visited-HasShard : (ns : List ℕ) → All (HasRow t) ns → All (HasShard t) (visited ns)
  visited-HasShard ns h = All-intro (HasShard t) (visited ns) λ i si at.
      let shards = map (λ n. pos (shard_of t n)) ns in
      let (z, there, e) = get_elem?-of_map to_ℕ (np.unique shards) i at in
      let (j, from) = np.unique-only shards i z there in
      let (n, k, f) = get_elem?-of_map (λ n. pos (shard_of t n)) ns j from in
      let (r, has) = All-get (HasRow t) ns j n h k in
      let same : shard_of t n ≡ si = ap to_ℕ f ∙ e in
      let (rows, found) = row_at→shard t n r has in (rows, rw same at found)

  visited-All :
      (ns : List ℕ)
      → All (λ n. elem ℕ_discrete (shard_of t n) (rev_append t (visited ns) []) ≡ true) ns
  visited-All ns = All-intro _ ns λ i n at.
      let shards = map (λ m. pos (shard_of t m)) ns in
      let (k, there) =
        unique-all np shards i (pos (shard_of t n))
          (get_elem?-map (λ m. pos (shard_of t m)) ns i at) in
      elem-rev_append t (shard_of t n) k (visited ns) []
        (get_elem?-map to_ℕ (np.unique shards) k there)

  pub gather_fast-rows :
      (ids : List ℤ) (rows : List Row)
      → 0 < t.shard_size
      → rows_at t ids ≡ some rows
      → gather_fast t np ids ≡ ok (map some rows)
  unfolding gather_fast
  gather_fast-rows ids rows size h =
      let (has, values) = rows_at→HasRows t ids rows h in
      let (has_row, same) = HasRows→HasRow t ids size has in
      let ns = map to_ℕ ids in
      let blank : replicate (length ids) none ≡ filled t [] ns =
        ap (λ n. replicate n none) (sym (length-map to_ℕ ids)) ∙ filled-nothing t ns in
      rw
        (
          HasRows→inside t ids size has,
          blank,
          copy_shards-filled t (visited ns) [] ns (visited-HasShard ns has_row) has_row,
          filled-All t (rev_append t (visited ns) []) ns (visited-All ns),
        )
        (ap ok (same ∙ values))
