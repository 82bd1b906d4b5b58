-- ===== src/Ple/Table/Fast.antt =====
-- The inline branch of _gather in src/vllm_ple_mmap.py returns the rows asked for.
use mathlib.Core.Path.{ap₂}
use qwen3_8_flash_dgx_auto_r.Common.{
  ℕ, zero, suc, ◌*◌, ◌/◌, ◌<◌, ◌≡◌, refl, sym, ap, ◌∙◌, inl, inr, true, false, List, [], ◌∷◌,
  Option, none, some, map, arith, leb, ◌==◌, ==_iff, if◌then◌else◌, length, replicate, get_elem?,
  get_elem?-lt, All, elem, ℕ_discrete, Bool-cases, Option-cases,
}
use qwen3_8_flash_dgx_auto_r.Common.Int.{ℤ, pos, negsuc}
use qwen3_8_flash_dgx_auto_r.Ple.Table.{
  MmapPleTable, ok, to_ℕ, is_outside, any_outside, row_bound, shard_of, local_of, shard_rows,
  masked_copy, copy_shards, row_at, rows_at,
}

module _ {Row : Type 0} (t : MmapPleTable Row) where
  -- The table has the row.
  abbrev pub HasRow : ℕ → Type 0
  HasRow id = (r : Row) × (row_at t (pos id) ≡ some r)

  abbrev pub HasShard : ℕ → Type 0
  HasShard si = (rows : List Row) × (get_elem? t.mm si ≡ some (some rows))

  -- The output once the shards of `written` are copied.
  pub filled : List ℕ → List ℕ → List (Option Row)
  filled written [] = []
  filled written (id ∷ ids) =
      (if elem ℕ_discrete (shard_of t id) written then row_at t (pos id) else none)
      ∷ filled written ids

  pub row_at-shard :
      (id : ℕ) (rows : List Row)
      → get_elem? t.mm (shard_of t id) ≡ some (some rows)
      → row_at t (pos id) ≡ get_elem? rows (local_of t id)
  unfolding row_at
  row_at-shard id rows e = rw (e, row_at)

  elem-same : (k j : ℕ) (xs : List ℕ) → k ≡ j → elem ℕ_discrete k (j ∷ xs) ≡ true
  unfolding elem
  elem-same k j xs e = ground arith

  elem-other :
      (k j : ℕ) (xs : List ℕ) → (k == j) ≡ false → elem ℕ_discrete k (j ∷ xs) ≡ elem ℕ_discrete k xs
  unfolding elem
  elem-other k j xs e = ground arith

  masked_copy-filled :
      (si : ℕ) (rows : List Row) (written ids : List ℕ)
      → get_elem? t.mm si ≡ some (some rows)
      → All HasRow ids
      → masked_copy t si rows ids (filled written ids) ≡ ok (filled (si ∷ written) ids)
  unfolding masked_copy filled
  masked_copy-filled si rows written [] e h = refl
  masked_copy-filled si rows written (id ∷ ids) e ((r, has), h) =
      rw (masked_copy-filled si rows written ids e h) (elim (Bool-cases (shard_of t id == si)) [
        | inl hit ↦
            let same : shard_of t id ≡ si = (==_iff (shard_of t id) si).0 hit in
            let found : get_elem? rows (local_of t id) ≡ some r =
              sym (row_at-shard id rows (ap (get_elem? t.mm) same ∙ e)) ∙ has in
            rw (hit, elem-same (shard_of t id) si written same, found, has)
        | inr miss ↦ rw (miss, elem-other (shard_of t id) si written miss)
      ])

  -- The shards of `sis` written after those of `written`.
  pub rev_append : List ℕ → List ℕ → List ℕ
  rev_append [] written = written
  rev_append (si ∷ sis) written = rev_append sis (si ∷ written)

  pub copy_shards-filled :
      (sis written ids : List ℕ)
      → All HasShard sis
      → All HasRow ids
      → copy_shards t sis ids (filled written ids) ≡ ok (filled (rev_append sis written) ids)
  unfolding copy_shards rev_append shard_rows
  copy_shards-filled [] written ids s h = refl
  copy_shards-filled (si ∷ sis) written ids ((rows, e), s) h =
      rw (e, shard_rows, masked_copy-filled si rows written ids e h)
        (copy_shards-filled sis (si ∷ written) ids s h)

  elem-rev_append_written :
      (k : ℕ) (sis written : List ℕ)
      → elem ℕ_discrete k written ≡ true
      → elem ℕ_discrete k (rev_append sis written) ≡ true
  unfolding rev_append elem
  elem-rev_append_written k [] written h = h
  elem-rev_append_written k (si ∷ sis) written h =
      elem-rev_append_written k sis (si ∷ written) (ground arith)

  pub elem-rev_append :
      (k i : ℕ) (sis written : List ℕ)
      → get_elem? sis i ≡ some k
      → elem ℕ_discrete k (rev_append sis written) ≡ true
  unfolding rev_append
  elem-rev_append k i [] written h = cc
  elem-rev_append k zero (si ∷ sis) written h =
      elem-rev_append_written k sis (si ∷ written) (elem-same k si written (sym (ground arith)))
  elem-rev_append k (suc i) (si ∷ sis) written h = elem-rev_append k i sis (si ∷ written) h

  pub filled-nothing : (ids : List ℕ) → replicate (length ids) none ≡ filled [] ids
  unfolding filled elem
  filled-nothing [] = refl
  filled-nothing (id ∷ ids) = ap (◌∷◌ none) (filled-nothing ids)

  pub filled-All :
      (written ids : List ℕ)
      → All (λ id. elem ℕ_discrete (shard_of t id) written ≡ true) ids
      → filled written ids ≡ map (λ id. row_at t (pos id)) ids
  unfolding filled
  filled-All written [] h = refl
  filled-All written (id ∷ ids) h = rw (h.0, filled-All written ids h.1)

  pub row_at→shard : (id : ℕ) (r : Row) → row_at t (pos id) ≡ some r → HasShard (shard_of t id)
  unfolding row_at
  row_at→shard id r h = elim (Option-cases (get_elem? t.mm (shard_of t id))) [
    | inl e ↦ cc (rw (e, row_at) at h)
    | inr (none, e) ↦ cc (rw (e, row_at) at h)
    | inr (some rows, e) ↦ (rows, e)
  ]

  below_bound : (n s l : ℕ) → 0 < s → n / s < l → n < s * l
  below_bound n s l pos_s lt = grind arith

  below-leb : (n m : ℕ) → n < m → leb m n ≡ false
  below-leb n m h = ground arith

  -- A row that the table has lies within the range check.
  pub row_at→inside :
      (z : ℤ) (r : Row)
      → 0 < t.shard_size
      → row_at t z ≡ some r
      → (is_outside (row_bound t) z ≡ false) × (pos (to_ℕ z) ≡ z)
  unfolding row_at
  row_at→inside (pos n) r size h =
      let (rows, e) = row_at→shard n r h in
      (
        below-leb n (row_bound t)
            (below_bound n t.shard_size (length t.mm) size (get_elem?-lt t.mm (shard_of t n) e)),
        refl,
      )
  row_at→inside (negsuc n) r size h = cc

  abbrev pub HasRows : List ℤ → Type 0
  HasRows = All (λ z. (r : Row) × (row_at t z ≡ some r))

  pub rows_at→HasRows :
      (ids : List ℤ) (rows : List Row)
      → rows_at t ids ≡ some rows
      → HasRows ids × (map (row_at t) ids ≡ map some rows)
  unfolding rows_at
  rows_at→HasRows [] [] h = (tt, refl)
  rows_at→HasRows [] (r ∷ rows) h = cc
  rows_at→HasRows (z ∷ ids) rows h = elim (Option-cases (row_at t z)) [
    | inl e ↦ cc (rw (e, rows_at) at h)
    | inr (r, e) ↦ elim (Option-cases (rows_at t ids)) [
      | inl f ↦ cc (rw (e, f, rows_at) at h)
      | inr (rest, f) ↦
          let (has, same) = rows_at→HasRows ids rest f in
          let whole : r ∷ rest ≡ rows = cc (rw (e, f, rows_at) at h) in
          (((r, e), has), rw (← whole, e) (ap (◌∷◌ (some r)) same))
    ]
  ]

  pub HasRows→inside :
      (ids : List ℤ) → 0 < t.shard_size → HasRows ids → any_outside (row_bound t) ids ≡ false
  unfolding any_outside
  HasRows→inside [] size h = refl
  HasRows→inside (z ∷ ids) size h =
      ground (arith, (row_at→inside z h.0.0 size h.0.1).0, HasRows→inside ids size h.1)

  -- The ids as numbers.
  pub HasRows→HasRow :
      (ids : List ℤ)
      → 0 < t.shard_size
      → HasRows ids
      → All HasRow (map to_ℕ ids)
        × (map (λ n. row_at t (pos n)) (map to_ℕ ids) ≡ map (row_at t) ids)
  HasRows→HasRow [] size h = (tt, refl)
  HasRows→HasRow (z ∷ ids) size ((r, e), h) =
      let (rest, same) = HasRows→HasRow ids size h in
      let z_pos : pos (to_ℕ z) ≡ z = (row_at→inside z r size e).1 in
      (((r, ap (row_at t) z_pos ∙ e), rest), ap₂ ◌∷◌ (ap (row_at t) z_pos) same)
