-- ===== src/StripIndex/Examples.antt =====
-- Tests of tools/strip_ngram_index.py, where the names are numbers and 1 and 3 are n-gram shards.
use qwen3_8_flash_dgx_auto_r.Common.{
  ℕ, ◌≡◌, refl, Bool, false, ◌||◌, [], ◌∷◌, none, some, is_empty, take, ◌==◌,
}
use qwen3_8_flash_dgx_auto_r.StripIndex.{Json, IndexDir, run, removed, stripped, strip_index}
use qwen3_8_flash_dgx_auto_r.StripIndex.Backup.{SplitsNgram, strip_index_lem, cut_off-torn}

abbrev is_ngram : ℕ → Bool
is_ngram n = (n == 1) || (n == 3)

abbrev checkpoint : IndexDir ℕ
checkpoint = record { index = 1 ∷ 2 ∷ 3 ∷ 4 ∷ []; bak = none; tmp = none }

strip_index_lem_example :
    let d' = run checkpoint (strip_index is_ngram checkpoint) in
    SplitsNgram is_ngram checkpoint.index d'.index
    × (strip_index is_ngram d' ≡ [])
    × (is_empty (removed is_ngram checkpoint.index) ≡ false
        → checkpoint.bak ≡ none
        → d'.bak ≡ some (Json.weight_map checkpoint.index))
strip_index_lem_example = strip_index_lem is_ngram checkpoint

cut_off-torn_example :
    let cut = run checkpoint (take 1 (strip_index is_ngram checkpoint)) in
    let after = run cut (strip_index is_ngram cut) in
    (after.bak ≡ some Json.torn)
    × (after.index ≡ stripped is_ngram checkpoint.index)
    × (after.tmp ≡ none)
unfolding removed
cut_off-torn_example = cut_off-torn is_ngram checkpoint refl refl
