-- ===== src/StripIndex/Backup.antt =====
-- Runs of tools/strip_ngram_index.py, whole and cut off.
use qwen3_8_flash_dgx_auto_r.Common.{
  ◌≡◌, refl, sym, ap, ◌∙◌, subst, All, Bool, true, false, List, [], ◌∷◌, ◌++◌, none, some, is_empty,
  take, inl, inr, Bool-cases, Option-cases,
}
use qwen3_8_flash_dgx_auto_r.StripIndex.{
  Json, IndexDir, Op, step, run, removed, stripped, backup_ops, strip_index,
}

-- A list taken apart into two, each in the order of the list.
pub data IsSplit {N : Type 0} : List N → List N → List N → Type 0 where
  nothing : IsSplit [] [] []
  kept : (n : N) {ns ks ts : List N} → IsSplit ns ks ts → IsSplit (n ∷ ns) (n ∷ ks) ts
  taken : (n : N) {ns ks ts : List N} → IsSplit ns ks ts → IsSplit (n ∷ ns) ks (n ∷ ts)

module _ {N : Type 0} (is_ngram : N → Bool) where
  -- The first list is what the other two are made of, of which the last has the n-gram names.
  abbrev pub SplitsNgram : List N → List N → Type 0
  SplitsNgram ns ks =
      (ts : List N) × IsSplit ns ks ts
      × All (λ n. is_ngram n ≡ false) ks
      × All (λ n. is_ngram n ≡ true) ts

  stripped-SplitsNgram : (ns : List N) → SplitsNgram ns (stripped is_ngram ns)
  unfolding stripped
  stripped-SplitsNgram [] = ([], nothing, tt, tt)
  stripped-SplitsNgram (n ∷ ns) =
      let (ts, split, ks_ok, ts_ok) = stripped-SplitsNgram ns in
      elim (Bool-cases (is_ngram n)) [
        | inl e ↦ rw e (n ∷ ts, taken n split, ks_ok, (e, ts_ok))
        | inr e ↦ rw e (ts, kept n split, (e, ks_ok), ts_ok)
      ]

  removed-stripped : (ns : List N) → removed is_ngram (stripped is_ngram ns) ≡ []
  unfolding removed stripped
  removed-stripped [] = refl
  removed-stripped (n ∷ ns) = elim (Bool-cases (is_ngram n)) [
    | inl e ↦ rw e (removed-stripped ns)
    | inr e ↦ rw (e, e) (removed-stripped ns)
  ]

  stripped_of_clean :
      (ns : List N) → is_empty (removed is_ngram ns) ≡ true → stripped is_ngram ns ≡ ns
  unfolding removed stripped
  stripped_of_clean [] h = refl
  stripped_of_clean (n ∷ ns) h = elim (Bool-cases (is_ngram n)) [
    | inl e ↦ cc (rw e at h)
    | inr e ↦ rw e (ap (◌∷◌ n) (stripped_of_clean ns (rw e at h)))
  ]

  module _ (d : IndexDir N) where
    idle : is_empty (removed is_ngram d.index) ≡ true → strip_index is_ngram d ≡ []
    unfolding strip_index
    idle e = rw e

    rest_ops : List (Op N)
    rest_ops =
        Op.begin_dump
        ∷ Op.end_dump (stripped is_ngram d.index)
        ∷ Op.replace_index (stripped is_ngram d.index)
        ∷ []

    busy :
        is_empty (removed is_ngram d.index) ≡ false
        → strip_index is_ngram d ≡ backup_ops is_ngram d.bak ++ rest_ops
    unfolding strip_index rest_ops
    busy e = rw e

    run_busy-index :
        (run d (backup_ops is_ngram d.bak ++ rest_ops)).index ≡ stripped is_ngram d.index
    unfolding run step backup_ops rest_ops
    run_busy-index = elim (Option-cases d.bak) [ inl e ↦ rw e | inr (j, e) ↦ rw e ]

    run_busy-bak :
        d.bak ≡ none
        → (run d (backup_ops is_ngram d.bak ++ rest_ops)).bak ≡ some (Json.weight_map d.index)
    unfolding run step backup_ops rest_ops
    run_busy-bak e = rw e

    run-stripped : (run d (strip_index is_ngram d)).index ≡ stripped is_ngram d.index
    unfolding run
    run-stripped = elim (Bool-cases (is_empty (removed is_ngram d.index))) [
      | inl e ↦ rw (idle e) (sym (stripped_of_clean d.index e))
      | inr e ↦ rw (busy e) run_busy-index
    ]

  -- A run of the index stripping to the end takes the n-gram names out of the index and nothing
  -- else: the names before it are those after it and n-gram names that were taken out, in the same
  -- order, and none after it is an n-gram name. The next run does nothing. The backup is the index
  -- as it was, unless there is one or there was nothing to strip.
  pub strip_index_lem :
      (d : IndexDir N)
      → let d' = run d (strip_index is_ngram d) in
        SplitsNgram d.index d'.index
        × (strip_index is_ngram d' ≡ [])
        × (is_empty (removed is_ngram d.index) ≡ false
            → d.bak ≡ none
            → d'.bak ≡ some (Json.weight_map d.index))
  strip_index_lem d = (
    subst (SplitsNgram d.index) (sym (run-stripped d)) (stripped-SplitsNgram d.index),
    idle (run d (strip_index is_ngram d))
        (ap is_empty (ap (removed is_ngram) (run-stripped d) ∙ removed-stripped d.index)),
    λ e none_yet. rw (busy d e) (run_busy-bak d none_yet),
  )

  copying : IndexDir N → IndexDir N
  copying d = record d { bak = some Json.torn }

  run-take_one :
      (d : IndexDir N)
      → is_empty (removed is_ngram d.index) ≡ false
      → d.bak ≡ none
      → run d (take 1 (strip_index is_ngram d)) ≡ copying d
  unfolding run step backup_ops copying
  run-take_one d e none_yet = rw (busy d e, none_yet) refl

  -- When a run with names to strip is cut off while the first backup is being copied, the next run
  -- keeps the torn backup, and strips the index: no file has the names that it takes out.
  pub cut_off-torn :
      (d : IndexDir N)
      → is_empty (removed is_ngram d.index) ≡ false
      → d.bak ≡ none
      → let cut = run d (take 1 (strip_index is_ngram d)) in
        let after = run cut (strip_index is_ngram cut) in
        (after.bak ≡ some Json.torn)
        × (after.index ≡ stripped is_ngram d.index)
        × (after.tmp ≡ none)
  unfolding run step backup_ops rest_ops copying
  cut_off-torn d e none_yet = rw (run-take_one d e none_yet, busy (copying d) e) (refl, refl, refl)
