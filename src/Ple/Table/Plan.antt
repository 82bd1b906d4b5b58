-- ===== src/Ple/Table/Plan.antt =====
-- The tasks of _gather in src/vllm_ple_mmap.py tile the array, each on one shard.
use qwen3_8_flash_dgx_auto_r.Common.{
  ℕ, zero, suc, ◌+◌, ◌≤◌, ◌<◌, ◌≡◌, refl, sym, ap, ◌∙◌, inl, inr, min, List, [], ◌∷◌, ◌++◌, some,
  arith, ltb, ◌==◌, ==_iff, subst, length, get_elem?, Bool-cases,
}
use qwen3_8_flash_dgx_auto_r.Ple.Table.{
  MmapPleTable, Task, shard_of, bounds_from, chunk_tasks, span_tasks, plan_tasks, or_zero,
}

module _ {Row : Type 0} (t : MmapPleTable Row) (ns : List ℕ) where
  -- All ids at the positions from `a` up to `b` lie in shard `si`.
  abbrev pub OnShard : ℕ → ℕ → ℕ → Type 0
  OnShard si a b = (i id : ℕ) → a ≤ i → i < b → get_elem? ns i ≡ some id → shard_of t id ≡ si

  -- The tasks follow one another from `a` to `e`.
  abbrev pub Tiles : ℕ → List (Task t) → ℕ → Type 0
  Tiles a [] e = a ≡ e
  Tiles a ((si, a', b) ∷ tasks) e = (a' ≡ a) × (a < b) × (b ≤ e) × OnShard si a b × Tiles b tasks e

  Tiles-mono_end : (a : ℕ) (xs : List (Task t)) (m e : ℕ) → Tiles a xs m → a ≤ m
  Tiles-mono_end a [] m e h = omega arith
  Tiles-mono_end a ((si, a', b) ∷ xs) m e h = omega (arith, Tiles-mono_end b xs m e h.4)

  Tiles-append :
      (a : ℕ) (xs ys : List (Task t)) (m e : ℕ)
      → m ≤ e
      → Tiles a xs m
      → Tiles m ys e
      → Tiles a (xs ++ ys) e
  Tiles-append a [] ys m e le h k = rw h k
  Tiles-append a ((si, a', b) ∷ xs) ys m e le h k =
      (h.0, h.1, omega arith, h.3, Tiles-append b xs ys m e le h.4 k)

  chunk_tasks-done : (fuel si c e : ℕ) → e ≤ c → chunk_tasks t fuel si c e ≡ []
  unfolding chunk_tasks
  chunk_tasks-done zero si c e h = refl
  chunk_tasks-done (suc fuel) si c e h = ground arith

  chunk_tasks-Tiles :
      (fuel si c e : ℕ)
      → 0 < t.chunk
      → c ≤ e
      → e ≤ c + fuel
      → OnShard si c e
      → Tiles c (chunk_tasks t fuel si c e) e
  unfolding chunk_tasks
  chunk_tasks-Tiles zero si c e pos le enough on = omega arith
  chunk_tasks-Tiles (suc fuel) si c e pos le enough on = elim (Bool-cases (ltb c e)) [
    | inr done ↦ rw done (ground arith)
    | inl more ↦
        let lt : c < e = ground arith in
        elim (Bool-cases (ltb (c + t.chunk) e)) [
          | inl inside ↦
              let m : min (c + t.chunk) e ≡ c + t.chunk = ground arith in
              rw (more, m)
                (
                  refl,
                  omega arith,
                  ground arith,
                  λ i id le_i lt_i. on i id le_i (ground arith),
                  chunk_tasks-Tiles fuel si (c + t.chunk) e pos (ground arith) (omega arith)
                      (λ i id le_i lt_i. on i id (omega arith) lt_i),
                )
          | inr last ↦
              let m : min (c + t.chunk) e ≡ e = ground arith in
              rw (more, m, chunk_tasks-done fuel si (c + t.chunk) e (ground arith))
                (refl, lt, omega arith, on, refl)
        ]
  ]

  -- The boundaries of `bounds` split the positions from `s` on into runs of one shard.
  abbrev Spans : ℕ → List ℕ → Type 0
  Spans s [] = (s < length ns) × OnShard (shard_of t (or_zero (get_elem? ns s))) s (length ns)
  Spans s (e ∷ bounds) =
      (s < e)
      × (e < length ns)
      × OnShard (shard_of t (or_zero (get_elem? ns s))) s e
      × Spans e bounds

  -- `rest` is the array from position `i` on.
  abbrev From : ℕ → List ℕ → Type 0
  From i rest = (i + length rest ≡ length ns) × ((k : ℕ) → get_elem? ns (i + k) ≡ get_elem? rest k)

  From-head : (i id : ℕ) (rest : List ℕ) → From i (id ∷ rest) → get_elem? ns i ≡ some id
  From-head i id rest f = let e : i ≡ i + 0 = omega arith in ap (get_elem? ns) e ∙ f.1 0

  From-tail : (i id : ℕ) (rest : List ℕ) → From i (id ∷ rest) → From (i + 1) rest
  From-tail i id rest f = (
    omega (arith, f.0),
    λ k. let e : i + 1 + k ≡ i + suc k = omega arith in ap (get_elem? ns) e ∙ f.1 (suc k),
  )

  OnShard-step :
      (si a i id : ℕ)
      → OnShard si a i
      → get_elem? ns i ≡ some id
      → shard_of t id ≡ si
      → OnShard si a (i + 1)
  OnShard-step si a i id on at e j id' le lt at' = elim (Bool-cases (j == i)) [
    | inr other ↦ on j id' le (ground arith) at'
    | inl here ↦
        let same : j ≡ i = (==_iff j i).0 here in
        let found : some id ≡ some id' = sym at ∙ ap (get_elem? ns) (sym same) ∙ at' in
        let q : id ≡ id' = cc in ap (shard_of t) (sym q) ∙ e
  ]

  bounds_from-Spans :
      (s i : ℕ) (rest : List ℕ)
      → s < i
      → From i rest
      → OnShard (shard_of t (or_zero (get_elem? ns s))) s i
      → Spans s (bounds_from t i (shard_of t (or_zero (get_elem? ns s))) rest)
  unfolding bounds_from
  bounds_from-Spans s i [] lt f on =
      (omega (arith, f.0), λ j id le_j lt_j. on j id le_j (omega (arith, f.0)))
  bounds_from-Spans s i (id ∷ rest) lt f on =
      let at = From-head i id rest f in
      elim (Bool-cases (shard_of t id == shard_of t (or_zero (get_elem? ns s)))) [
        | inl hit ↦
            let q : shard_of t id ≡ shard_of t (or_zero (get_elem? ns s)) = (==_iff _ _).0 hit in
            rw hit (
              subst (λ x. Spans s (bounds_from t (i + 1) x rest)) (sym q)
                (bounds_from-Spans s (i + 1) rest (omega arith) (From-tail i id rest f)
                  (OnShard-step _ s i id on at q)))
        | inr miss ↦
            let here : OnShard (shard_of t (or_zero (get_elem? ns i))) i (i + 1) =
              OnShard-step _ i i id (λ j id' le_j lt_j. absurd (omega arith)) at
                (ap (λ x. shard_of t (or_zero x)) (sym at)) in
            rw miss (
              lt,
              omega (arith, f.0),
              on,
              subst (λ x. Spans i (bounds_from t (i + 1) (shard_of t (or_zero x)) rest)) at
                  (bounds_from-Spans i (i + 1) rest (omega arith) (From-tail i id rest f) here),
            )
      ]

  span_tasks-Tiles :
      (s : ℕ) (bounds : List ℕ)
      → 0 < t.chunk
      → Spans s bounds
      → Tiles s (span_tasks t ns s bounds) (length ns)
  unfolding span_tasks
  span_tasks-Tiles s [] pos sp =
      chunk_tasks-Tiles (length ns) (shard_of t (or_zero (get_elem? ns s))) s (length ns) pos
        (omega arith) (omega arith) sp.1
  span_tasks-Tiles s (e ∷ bounds) pos sp =
      Tiles-append s _ _ e (length ns) (omega arith)
        (chunk_tasks-Tiles (length ns) (shard_of t (or_zero (get_elem? ns s))) s e pos (omega arith)
          (omega arith) sp.2)
        (span_tasks-Tiles e bounds pos sp.3)

-- With a positive chunk, the tasks of a plan tile the whole array, and each stays on one shard.
pub plan_tasks-Tiles :
    {Row : Type 0} (t : MmapPleTable Row) (ns : List ℕ)
    → 0 < t.chunk
    → Tiles t ns 0 (plan_tasks t ns) (length ns)
unfolding plan_tasks
plan_tasks-Tiles t [] pos = refl
plan_tasks-Tiles t (id ∷ ids) pos =
    span_tasks-Tiles t (id ∷ ids) 0 (bounds_from t 1 (shard_of t id) ids) pos (
      bounds_from-Spans t (id ∷ ids) 0 1 ids (omega arith)
        (omega arith, λ k. let e : 1 + k ≡ suc k = omega arith in ap (get_elem? (id ∷ ids)) e)
        (OnShard-step t (id ∷ ids) (shard_of t id) 0 0 id (λ j id' le lt. absurd (omega arith)) refl
          refl))
