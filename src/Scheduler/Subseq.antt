-- ===== src/Scheduler/Subseq.antt =====
-- _contains_subseq of src/patch_never_evict.py finds exactly the contiguous runs.
use qwen3_8_flash_dgx_auto_r.Common.{
  ℕ, zero, suc, ◌+◌, ◌<◌, ◌≡◌, refl, ap, ◌∙◌, ◌↔◌, ◌≢◌, inl, inr, Bool, true, false, ◌||◌, List, [],
  ◌∷◌, ◌++◌, none, some, arith, ltb, length, take, drop, length-append, length-drop, drop-add,
  append-take-drop, take-length-append, Bool-cases, Option-cases,
}
use qwen3_8_flash_dgx_auto_r.Scheduler.{index, index_from, list_eq, subseq_loop, contains_subseq}

list_eq→eq : (xs ys : List ℕ) → list_eq xs ys ≡ true → xs ≡ ys
unfolding list_eq
list_eq→eq [] [] h = refl
list_eq→eq [] (y ∷ ys) h = cc
list_eq→eq (x ∷ xs) [] h = cc
list_eq→eq (x ∷ xs) (y ∷ ys) h = ground (arith, list_eq→eq xs ys)

list_eq_refl : (xs : List ℕ) → list_eq xs xs ≡ true
unfolding list_eq
list_eq_refl [] = refl
list_eq_refl (x ∷ xs) = ground (arith, list_eq_refl xs)

-- The needle stands at the start of the list.
starts : List ℕ → List ℕ → Bool
starts needle xs = list_eq (take (length needle) xs) needle

-- The needle stands somewhere in the list.
occurs : List ℕ → List ℕ → Bool
unfolding starts
occurs needle [] = false
occurs needle (x ∷ xs) = starts needle (x ∷ xs) || occurs needle xs

module _ (first : ℕ) (rest : List ℕ) where
  occurs_absent : (xs : List ℕ) → index first xs ≡ none → occurs (first ∷ rest) xs ≡ false
  unfolding index occurs list_eq
  occurs_absent [] h = refl
  occurs_absent (x ∷ xs) h = ground (arith, occurs_absent xs)

  occurs_at :
      (xs : List ℕ) (j : ℕ)
      → index first xs ≡ some j
      → occurs (first ∷ rest) xs
        ≡ (starts (first ∷ rest) (drop j xs) || occurs (first ∷ rest) (drop (suc j) xs))
  unfolding index occurs list_eq
  occurs_at [] j h = cc
  occurs_at (x ∷ xs) zero h = refl
  occurs_at (x ∷ xs) (suc j) h = ground (arith, occurs_at xs j)

  index-lt : (xs : List ℕ) (j : ℕ) → index first xs ≡ some j → j < length xs
  unfolding index
  index-lt [] j h = cc
  index-lt (x ∷ xs) zero h = omega arith
  index-lt (x ∷ xs) (suc j) h = ground (arith, index-lt xs j)

  drop_next : (i j : ℕ) (xs : List ℕ) → drop (i + j + 1) xs ≡ drop (suc j) (drop i xs)
  drop_next i j xs = let e : i + j + 1 ≡ i + suc j = omega arith in rw e (drop-add i (suc j) xs)

  subseq_loop-occurs :
      (fuel : ℕ) (haystack : List ℕ) (i : ℕ)
      → length (drop i haystack) < fuel
      → subseq_loop fuel haystack (first ∷ rest) first i
        ≡ some (occurs (first ∷ rest) (drop i haystack))
  unfolding subseq_loop index_from starts
  subseq_loop-occurs zero haystack i h = absurd (omega arith)
  subseq_loop-occurs (suc fuel) haystack i h = elim (Option-cases (index first (drop i haystack))) [
    | inl e ↦ rw (e, subseq_loop) (rw (occurs_absent (drop i haystack) e))
    | inr (j, e) ↦
        rw (e, subseq_loop)
          (ground (
            arith,
            drop-add i j haystack,
            drop_next i j haystack,
            occurs_at (drop i haystack) j e,
            subseq_loop-occurs fuel haystack (i + j + 1) (
                omega (
                  arith,
                  index-lt (drop i haystack) j e,
                  length-drop i haystack,
                  length-drop (i + j + 1) haystack,
                )),
          ))
  ]

starts→eq : (needle xs : List ℕ) → starts needle xs ≡ true → xs ≡ needle ++ drop (length needle) xs
unfolding starts
starts→eq needle xs h =
    append-take-drop (length needle) xs
    ∙ ap (λ ys. ys ++ drop (length needle) xs) (list_eq→eq _ needle h)

starts-append : (needle post : List ℕ) → starts needle (needle ++ post) ≡ true
unfolding starts
starts-append needle post = rw (take-length-append needle post) (list_eq_refl needle)

-- A contiguous run of `needle` in `xs`.
abbrev pub HasRun : List ℕ → List ℕ → Type 0
HasRun needle xs = (pre : List ℕ) × (post : List ℕ) × (xs ≡ pre ++ (needle ++ post))

occurs→HasRun : (needle xs : List ℕ) → occurs needle xs ≡ true → HasRun needle xs
unfolding occurs
occurs→HasRun needle [] h = cc
occurs→HasRun needle (x ∷ xs) h = elim (Bool-cases (starts needle (x ∷ xs))) [
  | inl s ↦ ([], drop (length needle) (x ∷ xs), starts→eq needle (x ∷ xs) s)
  | inr n ↦
      let (pre, post, e) = occurs→HasRun needle xs (ground arith) in (x ∷ pre, post, ap (◌∷◌ x) e)
]

occurs-append :
    (y : ℕ) (needle pre post : List ℕ) → occurs (y ∷ needle) (pre ++ ((y ∷ needle) ++ post)) ≡ true
unfolding occurs
occurs-append y needle [] post = ground (arith, starts-append (y ∷ needle) post)
occurs-append y needle (x ∷ pre) post = ground (arith, occurs-append y needle pre post)

too_short :
    (y : ℕ) (needle haystack : List ℕ)
    → length haystack < length (y ∷ needle)
    → ¬ HasRun (y ∷ needle) haystack
too_short y needle haystack h (pre, post, e) =
    omega (
      arith,
      ap length e,
      length-append pre ((y ∷ needle) ++ post),
      length-append (y ∷ needle) post,
    )

-- _contains_subseq always ends, and returns True exactly when the needle is not empty and is a
-- contiguous run of the haystack.
pub contains_subseq_iff :
    (haystack needle : List ℕ)
    → (found : Bool) × (contains_subseq haystack needle ≡ some found)
      × ((found ≡ true) ↔ ((needle ≢ []) × HasRun needle haystack))
unfolding contains_subseq
contains_subseq_iff haystack [] = (false, refl, (λ h. cc, λ r. absurd (r.0 refl)))
contains_subseq_iff haystack (y ∷ needle) =
    elim (Bool-cases (ltb (length haystack) (length (y ∷ needle)))) [
      | inl short ↦
          (false, rw short, (λ h. cc, λ r. absurd (too_short y needle haystack (ground arith) r.1)))
      | inr long ↦ (
        occurs (y ∷ needle) haystack,
        rw long (subseq_loop-occurs y needle (length haystack + 1) haystack 0 (omega arith)),
        (
          λ h. (λ e. cc, occurs→HasRun (y ∷ needle) haystack h),
          λ (_, (pre, post, e)). rw e (occurs-append y needle pre post),
        ),
      )
    ]
