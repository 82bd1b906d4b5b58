-- ===== src/Ple/Table.antt =====
-- MmapPleTable of src/vllm_ple_mmap.py: the two ways in which _gather reads rows. A mapped shard is
-- the list of its rows; `none` in the output stands for a row of `np.empty` that nothing has written.
-- numpy's `unique` is a parameter, and so is what a row is.
pub mod Fast
mod Inline
mod Plan
mod Slow
pub mod Gather
pub mod Sorting
mod Examples
use qwen3_8_flash_dgx_auto_r.Common.{
  ℕ, zero, suc, ◌+◌, ◌-◌, ◌*◌, ◌/◌, ◌≡◌, ◌↔◌, min, Bool, true, false, not, ◌||◌, List, [], ◌∷◌,
  ◌++◌, Option, none, some, map, ltb, leb, ◌==◌, if◌then◌else◌, is_empty, length, take, drop,
  replicate, get_elem?,
}
use qwen3_8_flash_dgx_auto_r.Common.Int.{ℤ, pos, negsuc, lt_ℤ}

pub data Fault : Type 0 where
  out_of_range shard_missing row_missing : Fault

pub data Result {ℓ} (A : Type ℓ) : Type ℓ where
  ok : A → Result A
  err : Fault → Result A

infixl 5 ◌>>=◌
abbrev pub ◌>>=◌ {ℓ κ} : {A : Type ℓ} {B : Type κ} → Result A → (A → Result B) → Result B
ok a >>= f = f a
err e >>= f = err e

abbrev pub or_fail {ℓ} : {A : Type ℓ} → Fault → Option A → Result A
or_fail e none = err e
or_fail e (some a) = ok a

-- The elements increase strictly.
abbrev pub IsIncreasing : List ℤ → Type 0
IsIncreasing [] = Unit
IsIncreasing (x ∷ []) = Unit
IsIncreasing (x ∷ y ∷ zs) = (lt_ℤ x y ≡ true) × IsIncreasing (y ∷ zs)

-- `np.unique(ids, return_inverse=True)`
pub record Unique : Type 0 where
  pub unique : List ℤ → List ℤ
  pub inverse : List ℤ → List ℕ
  pub unique-IsIncreasing : (xs : List ℤ) → IsIncreasing (unique xs)
  -- `uniq[inverse]` is the array itself.
  pub unique-inverse : (xs : List ℤ) → map (λ i. get_elem? (unique xs) i) (inverse xs) ≡ map some xs
  -- What is in the result is in the array.
  pub unique-only :
      (xs : List ℤ) (i : ℕ) (z : ℤ)
      → get_elem? (unique xs) i ≡ some z
      → (j : ℕ) × (get_elem? xs j ≡ some z)

pub record MmapPleTable (Row : Type 0) : Type 0 where
  pub shard_size : ℕ
  pub chunk : ℕ
  pub fast_rows : ℕ
  pub mm : List (Option (List Row))

abbrev or_zero : Option ℕ → ℕ
or_zero none = 0
or_zero (some n) = n

abbrev joined {ℓ} : {A : Type ℓ} → Option (Option A) → Option A
joined none = none
joined (some o) = o

-- A row id that the range check let pass.
abbrev pub to_ℕ : ℤ → ℕ
to_ℕ (pos n) = n
to_ℕ (negsuc n) = 0

-- `id < 0 or id >= bound`
abbrev pub is_outside : ℕ → ℤ → Bool
is_outside bound (negsuc n) = true
is_outside bound (pos n) = leb bound n

-- `ids.min() < 0 or ids.max() >= bound`
pub any_outside : ℕ → List ℤ → Bool
any_outside bound [] = false
any_outside bound (z ∷ zs) = is_outside bound z || any_outside bound zs

-- `uniq[-1] >= bound`
last_outside : ℕ → ℤ → List ℤ → Bool
last_outside bound z [] = not (lt_ℤ z (pos bound))
last_outside bound z (y ∷ ys) = last_outside bound y ys

-- `uniq[0] < 0 or uniq[-1] >= bound`, on an array that is not empty.
pub ends_outside : ℕ → List ℤ → Bool
unfolding last_outside
ends_outside bound [] = false
ends_outside bound (z ∷ zs) = lt_ℤ z (pos 0) || last_outside bound z zs

module _ {Row : Type 0} (t : MmapPleTable Row) where
  abbrev pub row_bound : ℕ
  row_bound = t.shard_size * length t.mm

  abbrev pub shard_of : ℕ → ℕ
  shard_of id = id / t.shard_size

  abbrev pub local_of : ℕ → ℕ
  local_of id = id - shard_of id * t.shard_size

  -- `self.mm[si]`, with the test on None.
  pub shard_rows : ℕ → Result (List Row)
  shard_rows si = elim (get_elem? t.mm si) [
    | none ↦ err out_of_range
    | some none ↦ err shard_missing
    | some (some rows) ↦ ok rows
  ]

  -- `out[mask] = mm[local[mask]]` with `mask = shard == si`
  masked_copy : ℕ → List Row → List ℕ → List (Option Row) → Result (List (Option Row))
  masked_copy si rows [] out = ok out
  masked_copy si rows (id ∷ ids) [] = ok []
  masked_copy si rows (id ∷ ids) (o ∷ out) = masked_copy si rows ids out >>= λ rest.
      if shard_of id == si
      then (or_fail row_missing (get_elem? rows (local_of id)) >>= λ r. ok (some r ∷ rest))
      else ok (o ∷ rest)

  -- `for si in np.unique(shard)`
  pub copy_shards : List ℕ → List ℕ → List (Option Row) → Result (List (Option Row))
  copy_shards [] ids out = ok out
  copy_shards (si ∷ sis) ids out =
      shard_rows si >>= λ rows. masked_copy si rows ids out >>= λ out'. copy_shards sis ids out'

  -- The branch of _gather for at most `fast_rows` ids.
  pub gather_fast : Unique → List ℤ → Result (List (Option Row))
  gather_fast np ids =
      let ns = map to_ℕ ids in
      if any_outside row_bound ids
      then err out_of_range
      else copy_shards (map to_ℕ (np.unique (map (λ n. pos (shard_of n)) ns))) ns
          (replicate (length ids) none)

  -- `np.flatnonzero(np.diff(shard)) + 1`, from position `i` on, where `s` is the shard before it.
  bounds_from : ℕ → ℕ → List ℕ → List ℕ
  bounds_from i s [] = []
  bounds_from i s (id ∷ ids) =
      let rest = bounds_from (i + 1) (shard_of id) ids in
      if shard_of id == s then rest else i ∷ rest

  abbrev pub Task : Type 0
  Task = ℕ × ℕ × ℕ

  -- `for c in range(s, e, self.chunk)`, on fuel.
  chunk_tasks : ℕ → ℕ → ℕ → ℕ → List Task
  chunk_tasks zero si c e = []
  chunk_tasks (suc fuel) si c e =
      let rest = chunk_tasks fuel si (c + t.chunk) e in
      if ltb c e then (si, c, min (c + t.chunk) e) ∷ rest else []

  -- `for s, e in zip(starts, ends)`: the next end is the next start, and the last is `uniq.size`.
  span_tasks : List ℕ → ℕ → List ℕ → List Task
  span_tasks ids s [] =
      chunk_tasks (length ids) (shard_of (or_zero (get_elem? ids s))) s (length ids)
  span_tasks ids s (e ∷ ends) =
      chunk_tasks (length ids) (shard_of (or_zero (get_elem? ids s))) s e ++ span_tasks ids e ends

  pub plan_tasks : List ℕ → List Task
  plan_tasks [] = []
  plan_tasks (id ∷ ids) = span_tasks (id ∷ ids) 0 (bounds_from 1 (shard_of id) ids)

  -- `mm[local[a:b]]`
  read_rows : List Row → List ℕ → Result (List (Option Row))
  read_rows rows [] = ok []
  read_rows rows (id ∷ ids) = or_fail row_missing (get_elem? rows (local_of id)) >>= λ r.
      read_rows rows ids >>= λ rest. ok (some r ∷ rest)

  -- `run`: `out[a:b] = mm[local[a:b]]`
  pub run_task : List ℕ → Task → List (Option Row) → Result (List (Option Row))
  run_task ids (si, a, b) out = shard_rows si >>= λ rows.
      read_rows rows (take (b - a) (drop a ids)) >>= λ part. ok (take a out ++ (part ++ drop b out))

  -- The tasks write disjoint slices; they are run in the order of the plan.
  run_tasks : List ℕ → List Task → List (Option Row) → Result (List (Option Row))
  run_tasks ids [] out = ok out
  run_tasks ids (task ∷ tasks) out = run_task ids task out >>= λ out'. run_tasks ids tasks out'

  -- The rest of _gather, on the array `uniq`.
  pub gather_unique : List ℤ → Result (List (Option Row))
  gather_unique uniq =
      let ns = map to_ℕ uniq in
      if ends_outside row_bound uniq
      then err out_of_range
      else run_tasks ns (plan_tasks ns) (replicate (length uniq) none)

  -- `out[inverse]`
  pub expand : List (Option Row) → List ℕ → List (Option Row)
  expand out inverse = map (λ i. joined (get_elem? out i)) inverse

  -- _gather
  pub gather : Unique → List ℤ → Bool → Result (List (Option Row))
  gather np ids already_unique =
      if is_empty ids
      then ok []
      else if leb (length ids) t.fast_rows
      then gather_fast np ids
      else if already_unique
      then gather_unique ids
      else (gather_unique (np.unique ids) >>= λ out. ok (expand out (np.inverse ids)))

  -- What a gather is for: row `id` of the table, shard after shard.
  pub row_at : ℤ → Option Row
  row_at (negsuc n) = none
  row_at (pos n) = elim (get_elem? t.mm (shard_of n)) [
    | none ↦ none
    | some none ↦ none
    | some (some rows) ↦ get_elem? rows (local_of n)
  ]

  pub rows_at : List ℤ → Option (List Row)
  rows_at [] = some []
  rows_at (z ∷ zs) = elim (row_at z) [
    | none ↦ none
    | some r ↦ elim (rows_at zs) [ none ↦ none | some rs ↦ some (r ∷ rs) ]
  ]
