-- ===== src/Ple/Table/Slow.antt =====
-- The chunked branch of _gather in src/vllm_ple_mmap.py returns the rows asked for.
use qwen3_8_flash_dgx_auto_r.Common.{
  ℕ, zero, suc, ◌+◌, ◌-◌, ◌≤◌, ◌<◌, ◌≡◌, refl, sym, ap, ◌∙◌, subst, List, [], ◌∷◌, ◌++◌, Option,
  none, some, false, not, map, arith, length, length-map, take, drop, replicate, get_elem?,
  get_elem?-some, get_elem?-take, get_elem?-drop, All, All-intro, All-get,
}
use qwen3_8_flash_dgx_auto_r.Common.Int.{ℤ, pos, negsuc, lt_ℤ}
use qwen3_8_flash_dgx_auto_r.Ple.Table.{
  MmapPleTable, Task, ok, to_ℕ, is_outside, last_outside, ends_outside, row_bound, shard_of,
  local_of, shard_rows, read_rows, run_task, run_tasks, plan_tasks, gather_unique, row_at, rows_at,
}
use qwen3_8_flash_dgx_auto_r.Ple.Table.Fast.{
  HasRow, HasShard, HasRows, row_at-shard, row_at→shard, row_at→inside, rows_at→HasRows,
  HasRows→HasRow,
}
use qwen3_8_flash_dgx_auto_r.Ple.Table.Plan.{OnShard, Tiles, plan_tasks-Tiles}

inside-lt : (bound : ℕ) (z : ℤ) → is_outside bound z ≡ false → not (lt_ℤ z (pos bound)) ≡ false
inside-lt bound (pos n) h = ground arith
inside-lt bound (negsuc n) h = cc

inside-nonneg : (bound : ℕ) (z : ℤ) → is_outside bound z ≡ false → lt_ℤ z (pos 0) ≡ false
inside-nonneg bound (pos n) h = ground arith
inside-nonneg bound (negsuc n) h = cc

module _ {Row : Type 0} (t : MmapPleTable Row) where
  abbrev row_of : ℕ → Option Row
  row_of id = row_at t (pos id)

  -- The output with the first `a` rows written.
  written : ℕ → List ℕ → List (Option Row)
  written zero ns = replicate (length ns) none
  written (suc a) [] = []
  written (suc a) (id ∷ ns) = row_of id ∷ written a ns

  written-all : (ns : List ℕ) → written (length ns) ns ≡ map row_of ns
  unfolding written
  written-all [] = refl
  written-all (id ∷ ns) = ap (◌∷◌ (row_of id)) (written-all ns)

  -- A slice written behind what is written already.
  written-slice_start :
      (b : ℕ) (ns : List ℕ)
      → b ≤ length ns
      → map row_of (take b ns) ++ drop b (replicate (length ns) none) ≡ written b ns
  unfolding written
  written-slice_start zero ns h = refl
  written-slice_start (suc b) [] h = absurd (omega arith)
  written-slice_start (suc b) (id ∷ ns) h =
      ap (◌∷◌ (row_of id)) (written-slice_start b ns (omega arith))

  written-slice :
      (a b : ℕ) (ns : List ℕ)
      → a ≤ b
      → b ≤ length ns
      → take a (written a ns) ++ (map row_of (take (b - a) (drop a ns)) ++ drop b (written a ns))
        ≡ written b ns
  unfolding written
  written-slice zero b ns h k = let e : b - 0 ≡ b = omega arith in rw e (written-slice_start b ns k)
  written-slice (suc a) zero ns h k = absurd (omega arith)
  written-slice (suc a) (suc b) [] h k = absurd (omega arith)
  written-slice (suc a) (suc b) (id ∷ ns) h k =
      let e : suc b - suc a ≡ b - a = omega arith in
      rw e (ap (◌∷◌ (row_of id)) (written-slice a b ns (omega arith) (omega arith)))

  read_rows-ok :
      (si : ℕ) (rows : List Row) (ids : List ℕ)
      → get_elem? t.mm si ≡ some (some rows)
      → All (HasRow t) ids
      → All (λ id. shard_of t id ≡ si) ids
      → read_rows t rows ids ≡ ok (map row_of ids)
  unfolding read_rows
  read_rows-ok si rows [] e h on = refl
  read_rows-ok si rows (id ∷ ids) e ((r, has), h) (same, on) =
      let found : get_elem? rows (local_of t id) ≡ some r =
        sym (row_at-shard t id rows (ap (get_elem? t.mm) same ∙ e)) ∙ has in
      rw (found, read_rows-ok si rows ids e h on, has)

  module _ (ns : List ℕ) (h : All (HasRow t) ns) where
    slice_at :
        (a b i id : ℕ)
        → get_elem? (take (b - a) (drop a ns)) i ≡ some id
        → (get_elem? ns (a + i) ≡ some id) × (a + i < b)
    slice_at a b i id at =
        ground (arith, get_elem?-take (b - a) i (drop a ns), get_elem?-drop a i ns)

    slice-HasRow : (a b : ℕ) → All (HasRow t) (take (b - a) (drop a ns))
    slice-HasRow a b =
        All-intro (HasRow t) _
          λ i id at. All-get (HasRow t) ns (a + i) id h (slice_at a b i id at).0

    slice-OnShard :
        (si a b : ℕ)
        → OnShard t ns si a b
        → All (λ id. shard_of t id ≡ si) (take (b - a) (drop a ns))
    slice-OnShard si a b on =
        All-intro (λ id. shard_of t id ≡ si) _
          λ i id at.
            let (there, below) = slice_at a b i id at in on (a + i) id (omega arith) below there

    -- A slice that is not empty shows that its shard is there.
    slice-HasShard : (si a b : ℕ) → a < b → b ≤ length ns → OnShard t ns si a b → HasShard t si
    slice-HasShard si a b lt le on =
        let (id, at) = get_elem?-some ns a (omega arith) in
        let (r, has) = All-get (HasRow t) ns a id h at in
        subst (HasShard t) (on a id (omega arith) lt at) (row_at→shard t id r has)

    run_task-written :
        (si a b : ℕ)
        → a < b
        → b ≤ length ns
        → OnShard t ns si a b
        → run_task t ns (si, a, b) (written a ns) ≡ ok (written b ns)
    unfolding run_task shard_rows
    run_task-written si a b lt le on =
        let (rows, e) = slice-HasShard si a b lt le on in
        rw (e, shard_rows, read_rows-ok si rows _ e (slice-HasRow a b) (slice-OnShard si a b on))
          (ap ok (written-slice a b ns (omega arith) le))

    run_tasks-written :
        (a : ℕ) (tasks : List (Task t))
        → Tiles t ns a tasks (length ns)
        → run_tasks t ns tasks (written a ns) ≡ ok (map row_of ns)
    unfolding run_tasks
    run_tasks-written a [] e = rw e (ap ok (written-all ns))
    run_tasks-written a ((si, a', b) ∷ tasks) (e, lt, le, on, tiles) =
        rw (e, run_task-written si a b lt le on) (run_tasks-written b tasks tiles)

  last_inside :
      (z : ℤ) (zs : List ℤ)
      → 0 < t.shard_size
      → HasRows t (z ∷ zs)
      → last_outside (row_bound t) z zs ≡ false
  unfolding last_outside
  last_inside z [] size h = inside-lt (row_bound t) z (row_at→inside t z h.0.0 size h.0.1).0
  last_inside z (y ∷ zs) size h = last_inside y zs size h.1

  ends_inside :
      (zs : List ℤ) → 0 < t.shard_size → HasRows t zs → ends_outside (row_bound t) zs ≡ false
  unfolding ends_outside
  ends_inside [] size h = refl
  ends_inside (z ∷ zs) size h = ground (
    arith,
    last_inside z zs size h,
    inside-nonneg (row_bound t) z (row_at→inside t z h.0.0 size h.0.1).0,
  )

  pub gather_unique-rows :
      (uniq : List ℤ) (rows : List Row)
      → 0 < t.shard_size
      → 0 < t.chunk
      → rows_at t uniq ≡ some rows
      → gather_unique t uniq ≡ ok (map some rows)
  unfolding gather_unique written
  gather_unique-rows uniq rows size chunk h =
      let (has, values) = rows_at→HasRows t uniq rows h in
      let (has_row, same) = HasRows→HasRow t uniq size has in
      let ns = map to_ℕ uniq in
      let blank : replicate (length uniq) none ≡ written 0 ns =
        ap (λ n. replicate n none) (sym (length-map to_ℕ uniq)) in
      rw
        (
          ends_inside uniq size has,
          blank,
          run_tasks-written ns has_row 0 (plan_tasks t ns) (plan_tasks-Tiles t ns chunk),
        )
        (ap ok (same ∙ values))
