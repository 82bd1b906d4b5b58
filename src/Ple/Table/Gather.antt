-- ===== src/Ple/Table/Gather.antt =====
-- _gather of src/vllm_ple_mmap.py against the rows of the table.
use qwen3_8_flash_dgx_auto_r.Common.{
  ℕ, suc, ◌<◌, ◌≡◌, refl, ap, ◌∙◌, ◌⊎◌, inl, inr, List, [], ◌∷◌, Option, Bool, none, some, true,
  false, map, arith, leb, if◌then◌else◌, zero, length, get_elem?, All-intro, All-get, Bool-cases,
}
use qwen3_8_flash_dgx_auto_r.Common.Int.{ℤ, pos, negsuc, lt_ℤ}
use qwen3_8_flash_dgx_auto_r.Ple.Table.{
  MmapPleTable, Unique, IsIncreasing, ◌>>=◌, ok, err, out_of_range, is_outside, any_outside,
  last_outside, ends_outside, row_bound, gather_fast, gather_unique, expand, joined, gather, row_at,
  rows_at,
}
use qwen3_8_flash_dgx_auto_r.Ple.Table.Fast.{HasRows, rows_at→HasRows}
use qwen3_8_flash_dgx_auto_r.Ple.Table.Inline.{unique-all, gather_fast-rows}
use qwen3_8_flash_dgx_auto_r.Ple.Table.Slow.{gather_unique-rows}

module _ {Row : Type 0} (t : MmapPleTable Row) where
  HasRows→rows_at : (zs : List ℤ) → HasRows t zs → (rows : List Row) × (rows_at t zs ≡ some rows)
  unfolding rows_at
  HasRows→rows_at [] h = ([], refl)
  HasRows→rows_at (z ∷ zs) ((r, e), h) =
      let (rows, f) = HasRows→rows_at zs h in (r ∷ rows, rw (e, f, rows_at))

  HasRows-unique : (np : Unique) (ids : List ℤ) → HasRows t ids → HasRows t (np.unique ids)
  HasRows-unique np ids h =
      All-intro _ (np.unique ids)
        λ i z at. let (j, there) = np.unique-only ids i z at in All-get _ ids j z h there

  -- `row_at` after an index that may be out of range.
  abbrev row_of? : Option ℤ → Option Row
  row_of? none = none
  row_of? (some z) = row_at t z

  joined-map :
      (zs : List ℤ) (i : ℕ) → joined (get_elem? (map (row_at t) zs) i) ≡ row_of? (get_elem? zs i)
  joined-map [] i = refl
  joined-map (z ∷ zs) zero = refl
  joined-map (z ∷ zs) (suc i) = joined-map zs i

  expand-map :
      (zs : List ℤ) (inverse : List ℕ)
      → expand t (map (row_at t) zs) inverse ≡ map row_of? (map (λ i. get_elem? zs i) inverse)
  unfolding expand
  expand-map zs [] = refl
  expand-map zs (i ∷ inverse) =
      rw (joined-map zs i) (ap (◌∷◌ (row_of? (get_elem? zs i))) (expand-map zs inverse))

  map-row_of? : (zs : List ℤ) → map row_of? (map some zs) ≡ map (row_at t) zs
  map-row_of? [] = refl
  map-row_of? (z ∷ zs) = ap (◌∷◌ (row_at t z)) (map-row_of? zs)

  gather_expanded-rows :
      (np : Unique) (ids : List ℤ) (rows : List Row)
      → 0 < t.shard_size
      → 0 < t.chunk
      → rows_at t ids ≡ some rows
      → (gather_unique t (np.unique ids) >>= λ out. ok (expand t out (np.inverse ids)))
        ≡ ok (map some rows)
  gather_expanded-rows np ids rows size chunk h =
      let (has, values) = rows_at→HasRows t ids rows h in
      let (rows', f) = HasRows→rows_at (np.unique ids) (HasRows-unique np ids has) in
      let (_, values') = rows_at→HasRows t (np.unique ids) rows' f in
      rw (gather_unique-rows t (np.unique ids) rows' size chunk f, ← values')
        (ap ok (
          expand-map (np.unique ids) (np.inverse ids)
          ∙ ap (map row_of?) (np.unique-inverse ids)
          ∙ map-row_of? ids
          ∙ values))

  pub rows_at-empty : rows_at t [] ≡ some []
  unfolding rows_at
  rows_at-empty = refl

  pub rows_at-cons :
      (z : ℤ) (zs : List ℤ) {r : Row} {rs : List Row}
      → row_at t z ≡ some r
      → rows_at t zs ≡ some rs
      → rows_at t (z ∷ zs) ≡ some (r ∷ rs)
  unfolding rows_at
  rows_at-cons z zs e es = rw (rows_at, e, es) refl

  -- When the shard size and the chunk are positive and the table has every row asked for, gather
  -- returns exactly those rows, in the order of the ids, each of them written, on the inline, the
  -- deduplicated and the already unique path.
  pub gather-rows :
      (np : Unique) (ids : List ℤ) (already_unique : Bool) (rows : List Row)
      → 0 < t.shard_size
      → 0 < t.chunk
      → rows_at t ids ≡ some rows
      → gather t np ids already_unique ≡ ok (map some rows)
  unfolding gather
  gather-rows np [] already_unique rows size chunk h = ap ok (rows_at→HasRows t [] rows h).1
  gather-rows np (z ∷ zs) already_unique rows size chunk h =
      elim (Bool-cases (leb (length (z ∷ zs)) t.fast_rows)) [
        | inl few ↦ rw few (gather_fast-rows t np (z ∷ zs) rows size h)
        | inr many ↦ rw many (either already_unique)
      ]
    where
      either :
          (u : Bool)
          → (if u
              then gather_unique t (z ∷ zs)
              else (gather_unique t (np.unique (z ∷ zs)) >>= λ out.
                  ok (expand t out (np.inverse (z ∷ zs)))))
            ≡ ok (map some rows)
      either true = gather_unique-rows t (z ∷ zs) rows size chunk h
      either false = gather_expanded-rows np (z ∷ zs) rows size chunk h

lt_above :
    (bound : ℕ) (z y : ℤ)
    → lt_ℤ z y ≡ true
    → lt_ℤ z (pos bound) ≡ false
    → lt_ℤ y (pos bound) ≡ false
lt_above bound (pos a) (pos b) h k = ground arith
lt_above bound (pos a) (negsuc b) h k = cc
lt_above bound (negsuc a) y h k = cc

lt_below : (z y : ℤ) → lt_ℤ z y ≡ true → lt_ℤ y (pos 0) ≡ true → lt_ℤ z (pos 0) ≡ true
lt_below (negsuc a) y h k = refl
lt_below (pos a) (pos b) h k = absurd (ground arith)
lt_below (pos a) (negsuc b) h k = cc

outside-cases :
    (bound : ℕ) (z : ℤ)
    → is_outside bound z ≡ true
    → (lt_ℤ z (pos 0) ≡ true) ⊎ (lt_ℤ z (pos bound) ≡ false)
outside-cases bound (pos n) h = inr (ground arith)
outside-cases bound (negsuc n) h = inl refl

any_outside-at :
    (bound : ℕ) (zs : List ℤ) (i : ℕ) (z : ℤ)
    → get_elem? zs i ≡ some z
    → is_outside bound z ≡ true
    → any_outside bound zs ≡ true
unfolding any_outside
any_outside-at bound [] i z at h = cc
any_outside-at bound (y ∷ zs) zero z at h =
    let e : z ≡ y = cc in ground (arith, ap (is_outside bound) e)
any_outside-at bound (y ∷ zs) (suc i) z at h = ground (arith, any_outside-at bound zs i z at h)

-- One end of a sorted array shows an id that is out of range.
module _ (bound : ℕ) where
  last_outside-below :
      (z : ℤ) (zs : List ℤ)
      → IsIncreasing (z ∷ zs)
      → lt_ℤ z (pos bound) ≡ false
      → last_outside bound z zs ≡ true
  unfolding last_outside
  last_outside-below z [] inc h = ground arith
  last_outside-below z (y ∷ zs) inc h = last_outside-below y zs inc.1 (lt_above bound z y inc.0 h)

  head_outside :
      (z : ℤ) (zs : List ℤ)
      → IsIncreasing (z ∷ zs)
      → is_outside bound z ≡ true
      → ends_outside bound (z ∷ zs) ≡ true
  unfolding ends_outside
  head_outside z zs inc h = elim (outside-cases bound z h) [
    | inl low ↦ rw low
    | inr high ↦ ground (arith, last_outside-below z zs inc high)
  ]

  later :
      (z y : ℤ) (zs : List ℤ)
      → IsIncreasing (z ∷ y ∷ zs)
      → ends_outside bound (y ∷ zs) ≡ true
      → ends_outside bound (z ∷ y ∷ zs) ≡ true
  unfolding ends_outside last_outside
  later z y zs inc h = ground (arith, lt_below z y inc.0)

  ends_outside-of_any :
      (zs : List ℤ) → IsIncreasing zs → any_outside bound zs ≡ true → ends_outside bound zs ≡ true
  unfolding any_outside
  ends_outside-of_any [] inc h = cc
  ends_outside-of_any (z ∷ []) inc h = head_outside z [] inc (ground arith)
  ends_outside-of_any (z ∷ y ∷ zs) inc h = elim (Bool-cases (is_outside bound z)) [
    | inl here ↦ head_outside z (y ∷ zs) inc here
    | inr not_here ↦ later z y zs inc (ends_outside-of_any (y ∷ zs) inc.1 (ground arith))
  ]

module _ {Row : Type 0} (t : MmapPleTable Row) where
  any_outside-unique :
      (np : Unique) (ids : List ℤ) (i : ℕ) (z : ℤ)
      → get_elem? ids i ≡ some z
      → is_outside (row_bound t) z ≡ true
      → any_outside (row_bound t) (np.unique ids) ≡ true
  any_outside-unique np ids i z at h =
      let (k, there) = unique-all np ids i z at in
      any_outside-at (row_bound t) (np.unique ids) k z there h

  -- A negative id, or one past the last shard, makes gather raise IndexError, whichever path it
  -- takes; ids that the caller says are unique have to be sorted.
  pub gather-outside :
      (np : Unique) (ids : List ℤ) (already_unique : Bool) (i : ℕ) (z : ℤ)
      → (already_unique ≡ true → IsIncreasing ids)
      → get_elem? ids i ≡ some z
      → is_outside (row_bound t) z ≡ true
      → gather t np ids already_unique ≡ err out_of_range
  unfolding gather gather_fast gather_unique
  gather-outside np [] already_unique i z inc at h = cc
  gather-outside np (y ∷ ys) already_unique i z inc at h =
      elim (Bool-cases (leb (length (y ∷ ys)) t.fast_rows)) [
        | inl few ↦ rw (few, any_outside-at (row_bound t) (y ∷ ys) i z at h)
        | inr many ↦ rw many (either already_unique inc)
      ]
    where
      either :
          (u : Bool)
          → (u ≡ true → IsIncreasing (y ∷ ys))
          → (if u
              then gather_unique t (y ∷ ys)
              else (gather_unique t (np.unique (y ∷ ys)) >>= λ out.
                  ok (expand t out (np.inverse (y ∷ ys)))))
            ≡ err out_of_range
      either true inc' = rw (
          ends_outside-of_any (row_bound t) (y ∷ ys) (inc' refl)
            (any_outside-at (row_bound t) (y ∷ ys) i z at h))
      either false inc' = rw (
          ends_outside-of_any (row_bound t) (np.unique (y ∷ ys)) (np.unique-IsIncreasing (y ∷ ys))
            (any_outside-unique np (y ∷ ys) i z at h))
