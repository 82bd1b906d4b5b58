-- ===== src/DraftVocab/Chosen.antt =====
-- The ids that tools/build_draft_vocab.py saves.
use qwen3_8_flash_dgx_auto_r.Common.{
  ℕ, ◌+◌, ◌≤◌, ◌<◌, max, min, ◌≡◌, refl, sym, ◌∙◌, true, false, ◌||◌, List, [], ◌∷◌, ltb, length,
  inl, inr, Bool-cases, arith, elem, distinct, distinct-cons, ℕ_discrete,
}
use qwen3_8_flash_dgx_auto_r.DraftVocab.{
  add_all, range_from, always_kept, add_ranked, fill, insert, sorted, draft_vocab,
}
use qwen3_8_flash_dgx_auto_r.DraftVocab.Kept.{
  kept, fill-grows, fill-keeps, fill-full, fill-distinct, fill-length, fill-only, add_ranked-keeps,
  add_ranked-distinct, add_ranked-length, add_ranked-only, add_ranked-full, elem-add_all,
  add_all-distinct, elem-range_from,
}

-- Each id is below the one after it.
abbrev IsAbove : ℕ → List ℕ → Type 0
IsAbove i [] = Unit {0}
IsAbove i (k ∷ ks) = i < k

abbrev pub IsSorted : List ℕ → Type 0
IsSorted [] = Unit {0}
IsSorted (i ∷ is) = IsAbove i is × IsSorted is

insert-IsAbove : (j i : ℕ) (is : List ℕ) → j < i → IsAbove j is → IsAbove j (insert i is)
unfolding insert
insert-IsAbove j i [] h a = h
insert-IsAbove j i (k ∷ ks) h a = elim (Bool-cases (ltb k i)) [ inl e ↦ rw e a | inr e ↦ rw e h ]

insert-IsSorted : (i : ℕ) (is : List ℕ) → IsSorted is → kept i is ≡ false → IsSorted (insert i is)
unfolding insert elem
insert-IsSorted i [] s h = (tt, tt)
insert-IsSorted i (k ∷ ks) s h = elim (Bool-cases (ltb k i)) [
  | inl e ↦ rw e (insert-IsAbove k i ks (ground arith) s.0, insert-IsSorted i ks s.1 (ground arith))
  | inr e ↦ rw e ((ground arith), s)
]

elem-insert : (v i : ℕ) (is : List ℕ) → kept v (insert i is) ≡ kept v (i ∷ is)
unfolding insert elem
elem-insert v i [] = refl
elem-insert v i (k ∷ ks) = ground (arith, elem-insert v i ks)

length-insert : (i : ℕ) (is : List ℕ) → length (insert i is) ≡ length is + 1
unfolding insert
length-insert i [] = omega arith
length-insert i (k ∷ ks) = ground (arith, length-insert i ks)

elem-sorted : (v : ℕ) (is : List ℕ) → kept v (sorted is) ≡ kept v is
unfolding sorted elem
elem-sorted v [] = refl
elem-sorted v (i ∷ is) = elem-insert v i (sorted is) ∙ ground (arith, elem-sorted v is)

length-sorted : (is : List ℕ) → length (sorted is) ≡ length is
unfolding sorted
length-sorted [] = refl
length-sorted (i ∷ is) = omega (arith, length-insert i (sorted is), length-sorted is)

sorted-IsSorted : (is : List ℕ) → distinct ℕ_discrete is ≡ true → IsSorted (sorted is)
unfolding sorted
sorted-IsSorted [] h = tt
sorted-IsSorted (i ∷ is) h =
    let (new, rest) = distinct-cons ℕ_discrete i is h in
    insert-IsSorted i (sorted is) (sorted-IsSorted is rest) (elem-sorted i is ∙ new)

module _ (n vocab : ℕ) (specials ranked : List ℕ) where
  abbrev base : List ℕ
  base = always_kept specials vocab

  elem-base : (v : ℕ) → kept v base ≡ (ltb v (min 256 vocab) || kept v specials)
  unfolding always_kept elem
  elem-base v =
      elem-add_all v (range_from 0 (min 256 vocab)) (add_all specials [])
      ∙ ground (arith, elem-range_from v 0 (min 256 vocab), elem-add_all v specials [])

  base-distinct : distinct ℕ_discrete base ≡ true
  unfolding always_kept distinct
  base-distinct =
      add_all-distinct (range_from 0 (min 256 vocab)) (add_all specials [])
        (add_all-distinct specials [] refl)

  abbrev chosen : List ℕ
  chosen = draft_vocab n vocab specials ranked

  -- What the ids of the drafter are.
  pub record IsDraftVocab (ids : List ℕ) : Type 0 where
    pub sorted : IsSorted ids
    pub specials_kept : (v : ℕ) → kept v specials ≡ true → kept v ids ≡ true
    pub bytes_kept : (v : ℕ) → v < 256 → v < vocab → kept v ids ≡ true
    pub bounded : length ids ≤ max n (length (always_kept specials vocab))
    pub full : (v : ℕ) → length ids < n → (kept v ranked || ltb v vocab) ≡ true → kept v ids ≡ true
    pub only :
        (v : ℕ) → kept v ids ≡ true → (kept v specials || (kept v ranked || ltb v vocab)) ≡ true

  -- The saved ids are sorted, without one twice. They have every special token and byte fallback, and
  -- are at most n, or as many as these. When they are fewer than n, every token of the corpus and
  -- every id of the vocabulary is among them. No other id is.
  pub draft_vocab-IsDraftVocab : IsDraftVocab (draft_vocab n vocab specials ranked)
  unfolding draft_vocab
  draft_vocab-IsDraftVocab =
      let keeps : (v : ℕ) → kept v base ≡ true → kept v chosen ≡ true =
        λ v m. elem-sorted v _ ∙ fill-keeps v n 0 vocab _ (add_ranked-keeps v n ranked base m) in
      let more = add_ranked n ranked base in
      let all = fill n 0 vocab more in
      record {
        sorted =
            sorted-IsSorted all
              (fill-distinct n 0 vocab more (add_ranked-distinct n ranked base base-distinct));
        specials_kept = λ v m. keeps v (ground (arith, elem-base v));
        bytes_kept = λ v h k. keeps v (ground (arith, elem-base v));
        bounded =
            ground (
              arith,
              length-sorted all,
              fill-length n 0 vocab more,
              add_ranked-length n ranked base,
            );
        full = λ v short m.
            let short' : length all < n = omega (arith, length-sorted all, short) in
            elem-sorted v all ∙ elim (Bool-cases (ltb v vocab)) [
              | inl below ↦ fill-full v n 0 vocab more (omega arith) (ground arith) short'
              | inr above ↦
                  let few : length more < n = omega (arith, fill-grows n 0 vocab more, short') in
                  fill-keeps v n 0 vocab more (add_ranked-full v n ranked base (ground arith) few)
            ];
        only = λ v m. ground (
          arith,
          fill-only v n 0 vocab more (sym (elem-sorted v all) ∙ m),
          add_ranked-only v n ranked base,
          elem-base v,
        );
      }
