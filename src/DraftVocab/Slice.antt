-- ===== src/DraftVocab/Slice.antt =====
-- Which ids the slice of the draft head of src/patch_mtp_draft_vocab.py has, and where.
use qwen3_8_flash_dgx_auto_r.Common.{
  ℕ, zero, suc, ◌+◌, ◌-◌, ◌%◌, ◌<◌, ◌≡◌, refl, sym, ap, ◌∙◌, subst, Bool, true, false, not, ◌&&◌,
  ◌||◌, List, [], ◌∷◌, ◌++◌, Option, none, some, ◌==◌, length, replicate, get_elem?, has, inl, inr,
  ==_iff, eq_refl, Bool-cases, arith,
}
use mathlib.Core.List.{}
use qwen3_8_flash_dgx_auto_r.Common.Int.{ℤ, pos, negsuc, eq_ℤ}
use qwen3_8_flash_dgx_auto_r.DraftVocab.{range_from, select_ids, last, pad}

has-last : (i : ℕ) (ids : List ℕ) → has (last i ids) (i ∷ ids) ≡ true
unfolding last
has-last i [] = ground arith
has-last i (k ∷ ks) = ground (arith, has-last k ks)

has-append : (v : ℕ) (is ks : List ℕ) → has v (is ++ ks) ≡ (has v is || has v ks)
has-append v [] ks = refl
has-append v (i ∷ is) ks = ground (arith, has-append v is ks)

-- A value that is in the list already adds nothing.
has-replicate : (v n k : ℕ) (is : List ℕ) → has k is ≡ true → has v (is ++ replicate n k) ≡ has v is
has-replicate v n k is h = has-append v is (replicate n k) ∙ absorbed n
  where
    absorbed : (n : ℕ) → (has v is || has v (replicate n k)) ≡ has v is
    absorbed zero = ground arith
    absorbed (suc n) = elim (Bool-cases (v == k)) [
      | inl e ↦
          let at : has v is ≡ true = subst (λ w. has w is ≡ true) (sym ((==_iff v k).0 e)) h in
          rw at refl
      | inr e ↦ rw e (absorbed n)
    ]

pub has-pad : (v : ℕ) (int4 : Bool) (ids : List ℕ) → has v (pad int4 ids) ≡ has v ids
unfolding pad
has-pad v int4 [] = refl
has-pad v int4 (i ∷ ids) =
    let n = length (i ∷ ids) % 64 in
    elim (Bool-cases (int4 && not (n == 0))) [
      | inl e ↦ rw e (has-replicate v (64 - n) (last i ids) (i ∷ ids) (has-last i ids))
      | inr e ↦ rw e refl
    ]

pub get_elem?-has : (is : List ℕ) (j : ℕ) {v : ℕ} → get_elem? is j ≡ some v → has v is ≡ true
get_elem?-has [] j at = cc
get_elem?-has (i ∷ is) zero {v} at = ground (arith, eq_refl v)
get_elem?-has (i ∷ is) (suc j) at = ground (arith, get_elem?-has is j at)

pub has-get_elem? : (is : List ℕ) (v : ℕ) → has v is ≡ true → (j : ℕ) × (get_elem? is j ≡ some v)
has-get_elem? [] v m = cc
has-get_elem? (i ∷ is) v m = elim (Bool-cases (v == i)) [
  | inl e ↦ (0, ap some (sym ((==_iff v i).0 e)))
  | inr e ↦ let (j, at) = has-get_elem? is v (ground arith) in (suc j, at)
]

pub get_elem?-range_from : (i n j : ℕ) → j < n → get_elem? (range_from i n) j ≡ some (i + j)
unfolding range_from
get_elem?-range_from i zero j h = absurd (omega arith)
get_elem?-range_from i (suc n) zero h = ap some (omega arith)
get_elem?-range_from i (suc n) (suc j) h =
    get_elem?-range_from (i + 1) n j (omega arith) ∙ ap some (omega arith)

-- The file has the id.
abbrev pub lists : ℕ → List ℤ → Bool
lists v [] = false
lists v (i ∷ ids) = eq_ℤ (pos v) i || lists v ids

-- Whether the drafter may propose an id of the vocabulary.
abbrev pub is_drafted : Option (List ℤ) → ℕ → Bool
is_drafted none v = true
is_drafted (some ids) v = lists v ids

pub has-select_ids :
    (v vocab : ℕ) (ids : List ℤ) → v < vocab → has v (select_ids vocab ids) ≡ lists v ids
unfolding select_ids
has-select_ids v vocab [] h = refl
has-select_ids v vocab (pos i ∷ ids) h = ground (arith, has-select_ids v vocab ids)
has-select_ids v vocab (negsuc i ∷ ids) h = ground (arith, has-select_ids v vocab ids)
