-- ===== src/DraftVocab/Kept.antt =====
-- The loops of tools/build_draft_vocab.py that add ids: what they keep, add and leave out.
use qwen3_8_flash_dgx_auto_r.Common.{
  ℕ, zero, suc, ◌+◌, ◌≤◌, ◌<◌, max, ◌≡◌, refl, ◌∙◌, Bool, true, ◌||◌, List, [], ◌∷◌, ltb, leb,
  length, arith, elem, elem-add, distinct, ◌&&◌, add, ℕ_discrete,
}
use qwen3_8_flash_dgx_auto_r.DraftVocab.{add_all, range_from, add_ranked, fill}

abbrev pub kept : ℕ → List ℕ → Bool
kept = elem ℕ_discrete

add-keeps : (v i : ℕ) (keep : List ℕ) → kept v keep ≡ true → kept v (add ℕ_discrete i keep) ≡ true
add-keeps v i keep h = ground (arith, elem-add ℕ_discrete v i keep)

add-has : (i : ℕ) (keep : List ℕ) → kept i (add ℕ_discrete i keep) ≡ true
add-has i keep = ground (arith, elem-add ℕ_discrete i i keep)

add-distinct :
    (i : ℕ) (keep : List ℕ)
    → distinct ℕ_discrete keep ≡ true
    → distinct ℕ_discrete (add ℕ_discrete i keep) ≡ true
unfolding add distinct
add-distinct i keep h = ground arith

length-add : (i : ℕ) (keep : List ℕ) → length (add ℕ_discrete i keep) ≤ length keep + 1
unfolding add
length-add i keep = ground arith

pub fill-keeps :
    (v n i left : ℕ) (keep : List ℕ) → kept v keep ≡ true → kept v (fill n i left keep) ≡ true
unfolding fill
fill-keeps v n i zero keep h = h
fill-keeps v n i (suc left) keep h =
    ground (arith, fill-keeps v n (i + 1) left (add ℕ_discrete i keep), add-keeps v i keep)

-- The loop stops with n ids, or with every id below the vocabulary.
pub fill-full :
    (v n i left : ℕ) (keep : List ℕ)
    → i ≤ v
    → v < i + left
    → length (fill n i left keep) < n
    → kept v (fill n i left keep) ≡ true
unfolding fill
fill-full v n i zero keep above below short = absurd (omega arith)
fill-full v n i (suc left) keep above below short = ground (
  arith,
  fill-full v n (i + 1) left (add ℕ_discrete i keep),
  fill-keeps i n (i + 1) left (add ℕ_discrete i keep),
  add-has i keep,
)

pub fill-distinct :
    (n i left : ℕ) (keep : List ℕ)
    → distinct ℕ_discrete keep ≡ true
    → distinct ℕ_discrete (fill n i left keep) ≡ true
unfolding fill
fill-distinct n i zero keep h = h
fill-distinct n i (suc left) keep h =
    ground (arith, fill-distinct n (i + 1) left (add ℕ_discrete i keep), add-distinct i keep h)

pub fill-length : (n i left : ℕ) (keep : List ℕ) → length (fill n i left keep) ≤ max n (length keep)
unfolding fill
fill-length n i zero keep = omega arith
fill-length n i (suc left) keep =
    ground (arith, fill-length n (i + 1) left (add ℕ_discrete i keep), length-add i keep)

add-grows : (i : ℕ) (keep : List ℕ) → length keep ≤ length (add ℕ_discrete i keep)
unfolding add
add-grows i keep = ground arith

pub fill-grows : (n i left : ℕ) (keep : List ℕ) → length keep ≤ length (fill n i left keep)
unfolding fill
fill-grows n i zero keep = omega arith
fill-grows n i (suc left) keep =
    ground (arith, fill-grows n (i + 1) left (add ℕ_discrete i keep), add-grows i keep)

pub fill-only :
    (v n i left : ℕ) (keep : List ℕ)
    → kept v (fill n i left keep) ≡ true
    → (kept v keep || ltb v (i + left)) ≡ true
unfolding fill
fill-only v n i zero keep h = ground arith
fill-only v n i (suc left) keep h =
    ground (arith, fill-only v n (i + 1) left (add ℕ_discrete i keep), elem-add ℕ_discrete v i keep)

pub add_ranked-keeps :
    (v n : ℕ) (ranked keep : List ℕ) → kept v keep ≡ true → kept v (add_ranked n ranked keep) ≡ true
unfolding add_ranked
add_ranked-keeps v n [] keep h = h
add_ranked-keeps v n (t ∷ ranked) keep h =
    ground (arith, add_ranked-keeps v n ranked (add ℕ_discrete t keep), add-keeps v t keep)

pub add_ranked-distinct :
    (n : ℕ) (ranked keep : List ℕ)
    → distinct ℕ_discrete keep ≡ true
    → distinct ℕ_discrete (add_ranked n ranked keep) ≡ true
unfolding add_ranked
add_ranked-distinct n [] keep h = h
add_ranked-distinct n (t ∷ ranked) keep h =
    ground (arith, add_ranked-distinct n ranked (add ℕ_discrete t keep), add-distinct t keep h)

pub add_ranked-length :
    (n : ℕ) (ranked keep : List ℕ) → length (add_ranked n ranked keep) ≤ max n (length keep)
unfolding add_ranked
add_ranked-length n [] keep = omega arith
add_ranked-length n (t ∷ ranked) keep =
    ground (arith, add_ranked-length n ranked (add ℕ_discrete t keep), length-add t keep)

pub add_ranked-only :
    (v n : ℕ) (ranked keep : List ℕ)
    → kept v (add_ranked n ranked keep) ≡ true
    → (kept v keep || kept v ranked) ≡ true
unfolding add_ranked elem
add_ranked-only v n [] keep h = ground arith
add_ranked-only v n (t ∷ ranked) keep h =
    ground (arith, add_ranked-only v n ranked (add ℕ_discrete t keep), elem-add ℕ_discrete v t keep)

-- A token is passed over only when the vocabulary is full.
pub add_ranked-full :
    (v n : ℕ) (ranked keep : List ℕ)
    → kept v ranked ≡ true
    → length (add_ranked n ranked keep) < n
    → kept v (add_ranked n ranked keep) ≡ true
unfolding add_ranked elem
add_ranked-full v n [] keep m short = cc
add_ranked-full v n (t ∷ ranked) keep m short = ground (
  arith,
  add_ranked-full v n ranked (add ℕ_discrete t keep),
  add_ranked-keeps t n ranked (add ℕ_discrete t keep),
  add-has t keep,
)

pub elem-add_all :
    (v : ℕ) (ids keep : List ℕ) → kept v (add_all ids keep) ≡ (kept v ids || kept v keep)
unfolding add_all elem
elem-add_all v [] keep = refl
elem-add_all v (i ∷ ids) keep =
    elem-add_all v ids (add ℕ_discrete i keep) ∙ ground (arith, elem-add ℕ_discrete v i keep)

pub add_all-distinct :
    (ids keep : List ℕ)
    → distinct ℕ_discrete keep ≡ true
    → distinct ℕ_discrete (add_all ids keep) ≡ true
unfolding add_all
add_all-distinct [] keep h = h
add_all-distinct (i ∷ ids) keep h =
    add_all-distinct ids (add ℕ_discrete i keep) (add-distinct i keep h)

pub elem-range_from : (v i n : ℕ) → kept v (range_from i n) ≡ (leb i v && ltb v (i + n))
unfolding range_from elem
elem-range_from v i zero = ground arith
elem-range_from v i (suc n) = ground (arith, elem-range_from v (i + 1) n)
