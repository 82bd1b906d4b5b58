-- ===== src/DraftVocab/Logits.antt =====
-- The logits of the draft head of src/patch_mtp_draft_vocab.py.
use qwen3_8_flash_dgx_auto_r.Common.{
  ℕ, zero, suc, ◌≤◌, ◌<◌, ◌≡◌, refl, sym, ap, ◌∙◌, subst, Bool, true, false, List, [], ◌∷◌, ◌++◌,
  map, Option, none, some, ◌==◌, if◌then◌else◌, length, take, drop, get_elem?, has, get_or,
  get_elem?-lt, inl, inr, ==_iff, eq_refl, Option-cases, Bool-cases, arith, get_elem?-map,
  get_elem?-take, length-drop, take-append-drop,
}
use mathlib.Core.List.{map-append}
use qwen3_8_flash_dgx_auto_r.Common.Int.{ℤ}
use qwen3_8_flash_dgx_auto_r.DraftVocab.{
  range_from, select_ids, pad, chunk_rows, head_rows, scores, write, index_copy, reduced,
  draft_logits,
}
use qwen3_8_flash_dgx_auto_r.DraftVocab.Slice.{
  has-pad, get_elem?-has, has-get_elem?, get_elem?-range_from, lists, is_drafted, has-select_ids,
}

module _ {Row Logit : Type 0} (row : ℕ → Row) (product : Row → Logit) (chunk : ℕ)
    (h : 0 < chunk) where
  -- The chunks together are the whole.
  chunk_rows-map :
      (fuel : ℕ) (sel : List ℕ)
      → length sel ≤ fuel
      → chunk_rows row product chunk fuel sel ≡ map row sel
  unfolding chunk_rows
  chunk_rows-map zero [] le = refl
  chunk_rows-map zero (s ∷ sel) le = absurd (omega arith)
  chunk_rows-map (suc fuel) [] le = refl
  chunk_rows-map (suc fuel) (s ∷ sel) le =
      let less : length (drop chunk (s ∷ sel)) ≤ fuel =
        omega (arith, length-drop {0} chunk (s ∷ sel)) in
      ap (λ r. map row (take chunk (s ∷ sel)) ++ r)
        (chunk_rows-map fuel (drop chunk (s ∷ sel)) less)
      ∙ sym (map-append row (take chunk (s ∷ sel)) (drop chunk (s ∷ sel)))
      ∙ ap (map row) (take-append-drop chunk (s ∷ sel))

  -- The logit of an id.
  abbrev pub logit : ℕ → Logit
  logit v = product (row v)

  abbrev products : List ℕ → List Logit
  products sel = map product (chunk_rows row product chunk (length sel) sel)

  scores_lem :
      (sel : List ℕ) (j : ℕ) {v : ℕ}
      → get_elem? sel j ≡ some v
      → scores row product chunk sel ≡ some (products sel)
  unfolding scores head_rows
  scores_lem [] j at = cc
  scores_lem (s ∷ sel) j at = refl

  get_elem?-products :
      (sel : List ℕ) (j : ℕ) {v : ℕ}
      → get_elem? sel j ≡ some v
      → get_elem? (products sel) j ≡ some (logit v)
  get_elem?-products sel j at =
      rw (chunk_rows-map (length sel) sel (omega arith))
        (get_elem?-map product (map row sel) j (get_elem?-map row sel j at))

  module _ (sel : List ℕ) (v : ℕ) where
    abbrev copied : List ℕ → (ℕ → Option Logit) → Option Logit
    copied order full = index_copy order sel (products sel) full v

    abbrev written : ℕ → (ℕ → Option Logit) → ℕ → Option Logit
    written j = write (get_elem? sel j) (get_elem? (products sel) j)

    -- A column is written with the logit of its id, or left.
    written-at :
        (j i : ℕ) (full : ℕ → Option Logit)
        → get_elem? sel j ≡ some i
        → written j full v ≡ (if v == i then some (logit i) else full v)
    unfolding write
    written-at j i full at = rw (at, get_elem?-products sel j at) refl

    written-keeps :
        (j : ℕ) (full : ℕ → Option Logit)
        → full v ≡ some (logit v)
        → written j full v ≡ some (logit v)
    unfolding write
    written-keeps j full e = elim (Option-cases (get_elem? sel j)) [
      | inl none_there ↦ rw none_there e
      | inr (i, at) ↦ written-at j i full at ∙ elim (Bool-cases (v == i)) [
        | inl q ↦ rw q (ap (λ w. some (logit w)) (sym ((==_iff v i).0 q)))
        | inr q ↦ rw q e
      ]
    ]

    copied-keeps :
        (order : List ℕ) (full : ℕ → Option Logit)
        → full v ≡ some (logit v)
        → copied order full ≡ some (logit v)
    unfolding index_copy
    copied-keeps [] full e = e
    copied-keeps (j ∷ order) full e = copied-keeps order (written j full) (written-keeps j full e)

    copied-writes :
        (order : List ℕ) (full : ℕ → Option Logit) (j : ℕ)
        → has j order ≡ true
        → get_elem? sel j ≡ some v
        → copied order full ≡ some (logit v)
    unfolding index_copy
    copied-writes [] full j m at = cc
    copied-writes (k ∷ order) full j m at = elim (Bool-cases (j == k)) [
      | inl q ↦
          let at_k : get_elem? sel k ≡ some v =
            subst (λ l. get_elem? sel l ≡ some v) ((==_iff j k).0 q) at in
          copied-keeps order (written k full) (written-at k v full at_k ∙ rw (eq_refl v) refl)
      | inr q ↦ copied-writes order (written k full) j (ground arith) at
    ]

    copied-leaves :
        (order : List ℕ) (full : ℕ → Option Logit) → has v sel ≡ false → copied order full ≡ full v
    unfolding index_copy write
    copied-leaves [] full m = refl
    copied-leaves (j ∷ order) full m =
        copied-leaves order (written j full) m ∙ elim (Option-cases (get_elem? sel j)) [
          | inl none_there ↦ rw none_there
          | inr (i, at) ↦
              let other : (v == i) ≡ false = absent i (get_elem?-has sel j at) in
              written-at j i full at ∙ rw other refl
        ]
      where
        absent : (i : ℕ) → has i sel ≡ true → (v == i) ≡ false
        absent i m' = elim (Bool-cases (v == i)) [
          | inl q ↦ cc (ap (λ w. has w sel) ((==_iff v i).0 q), m, m')
          | inr q ↦ q
        ]

  -- For an id v of the vocabulary, a head of at least as many rows as the vocabulary, a positive
  -- chunk, columns that are copied in any order that has each of them, and some id of the vocabulary
  -- in the file of ids when there is one: the logits are computed, and the logit of v is that of its
  -- own row of the head when there is no file or the file has it, and -inf otherwise, for a padded
  -- slice as for one that is not.
  pub draft_logits_lem :
      (order : List ℕ) (vocab out_f : ℕ) (int4 : Bool) (ids_path : Option (List ℤ)) (v w : ℕ)
      → v < vocab
      → vocab ≤ out_f
      → w < vocab
      → is_drafted ids_path w ≡ true
      → ((j : ℕ) → j < length (reduced vocab int4 (get_or ids_path [])) → has j order ≡ true)
      → (full : ℕ → Option Logit) × (draft_logits row product chunk order vocab out_f int4 ids_path
          ≡ some full)
        × (full v ≡ (if is_drafted ids_path v then some (logit v) else none))
  unfolding draft_logits reduced
  draft_logits_lem order vocab out_f int4 none v w below rows below' drafted complete =
      let at : get_elem? (range_from 0 out_f) v ≡ some v =
        get_elem?-range_from 0 out_f v (omega arith) ∙ ap some (omega arith) in
      (
        get_elem? (take vocab (products (range_from 0 out_f))),
        rw (draft_logits, scores_lem (range_from 0 out_f) v at) refl,
        get_elem?-take vocab v (products (range_from 0 out_f))
            ∙ ground (arith, get_elem?-products (range_from 0 out_f) v at),
      )
  draft_logits_lem order vocab out_f int4 (some ids) v w below rows below' drafted complete =
      let sel = reduced vocab int4 ids in
      let same = has-pad v int4 (select_ids vocab ids) ∙ has-select_ids v vocab ids below in
      let same' = has-pad w int4 (select_ids vocab ids) ∙ has-select_ids w vocab ids below' in
      let (k, at_k) = has-get_elem? sel w (same' ∙ drafted) in
      (
        index_copy order sel (products sel) (λ u. none),
        rw (draft_logits, scores_lem sel k at_k) refl,
        elim (Bool-cases (lists v ids)) [
          | inl m ↦
              let (j, at) = has-get_elem? sel v (same ∙ m) in
              rw m (copied-writes sel v order (λ u. none) j (complete j (get_elem?-lt sel j at)) at)
          | inr m ↦ rw m (copied-leaves sel v order (λ u. none) (same ∙ m))
        ],
      )

  -- A file of ids that has none of the vocabulary makes the first drafting step raise.
  pub draft_logits-raises :
      (order : List ℕ) (vocab out_f : ℕ) (int4 : Bool) (ids : List ℤ)
      → select_ids vocab ids ≡ []
      → draft_logits row product chunk order vocab out_f int4 (some ids) ≡ none
  unfolding draft_logits reduced pad scores head_rows
  draft_logits-raises order vocab out_f int4 ids e =
      ap
        (λ sel. elim (scores row product chunk (pad int4 sel)) [
          | none ↦ none
          | some red ↦ some (index_copy order (pad int4 sel) red (λ v. none))
        ])
        e
