-- ===== src/DraftVocab/Examples.antt =====
-- Tests of the draft vocabulary: a padded slice of two ids, copied from the last column to the first.
use qwen3_8_flash_dgx_auto_r.Common.{
  ℕ, ◌+◌, ◌<◌, ◌≡◌, ap, ◌∙◌, true, List, [], ◌∷◌, Option, some, refl, arith, length, has,
}
use qwen3_8_flash_dgx_auto_r.Common.Int.{ℤ, pos, negsuc}
use qwen3_8_flash_dgx_auto_r.DraftVocab.{
  draft_vocab, draft_logits, reduced, range_from, select_ids, pad,
}
use qwen3_8_flash_dgx_auto_r.DraftVocab.Chosen.{IsDraftVocab, draft_vocab-IsDraftVocab}
use qwen3_8_flash_dgx_auto_r.DraftVocab.Logits.{draft_logits_lem}
use qwen3_8_flash_dgx_auto_r.DraftVocab.Slice.{get_elem?-has, get_elem?-range_from}

draft_vocab-IsDraftVocab_example :
    IsDraftVocab 260 300 (299 ∷ []) (7 ∷ 280 ∷ []) (draft_vocab 260 300 (299 ∷ []) (7 ∷ 280 ∷ []))
draft_vocab-IsDraftVocab_example = draft_vocab-IsDraftVocab 260 300 (299 ∷ []) (7 ∷ 280 ∷ [])

abbrev ids : List ℤ
ids = pos 3 ∷ negsuc 0 ∷ pos 70 ∷ pos 1 ∷ []

complete : (j : ℕ) → j < length (reduced 50 true ids) → has j (range_from 0 64) ≡ true
unfolding reduced pad select_ids
complete j h =
    get_elem?-has (range_from 0 64) j (get_elem?-range_from 0 64 j h ∙ ap some (omega arith))

draft_logits_lem_example :
    (full : ℕ → Option ℕ) × (draft_logits
        (λ v. v + 100)
        (λ r. r + r)
        16
        (range_from 0 64)
        50
        60
        true
        (some ids)
      ≡ some full)
    × (full 3 ≡ some 206)
unfolding range_from
draft_logits_lem_example =
    draft_logits_lem (λ v. v + 100) (λ r. r + r) 16 (omega arith) (range_from 0 64) 50 60 true
      (some ids) 3 1 (omega arith) (omega arith) (omega arith) refl complete
