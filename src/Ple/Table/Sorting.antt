-- ===== src/Ple/Table/Sorting.antt =====
-- An insertion sort that drops duplicates: numpy's `unique` of src/vllm_ple_mmap.py, for the tests.
use qwen3_8_flash_dgx_auto_r.Common.{
  ℕ, zero, suc, ◌≡◌, refl, sym, ap, ◌∙◌, ◌⊎◌, inl, inr, List, [], ◌∷◌, some, true, false, map,
  arith, if◌then◌else◌, get_elem?, Bool-cases,
}
use qwen3_8_flash_dgx_auto_r.Common.Int.{ℤ, pos, negsuc, lt_ℤ}
use qwen3_8_flash_dgx_auto_r.Ple.Table.{Unique, IsIncreasing}

insert : ℤ → List ℤ → List ℤ
insert z [] = z ∷ []
insert z (y ∷ ys) = if lt_ℤ z y then z ∷ y ∷ ys else if lt_ℤ y z then y ∷ insert z ys else y ∷ ys

unfoldable pub sort : List ℤ → List ℤ
unfolding insert
sort [] = []
sort (z ∷ zs) = insert z (sort zs)

position : ℤ → List ℤ → ℕ
position z [] = 0
position z (y ∷ ys) =
    if lt_ℤ z y then suc (position z ys) else if lt_ℤ y z then suc (position z ys) else 0

insert-above :
    (w z : ℤ) (ys : List ℤ)
    → IsIncreasing (w ∷ ys)
    → lt_ℤ w z ≡ true
    → IsIncreasing (w ∷ insert z ys)
unfolding insert
insert-above w z [] inc h = (h, tt)
insert-above w z (y ∷ ys) inc h = elim (Bool-cases (lt_ℤ z y)) [
  | inl below ↦ rw below (h, (below, inc.1))
  | inr not_below ↦ elim (Bool-cases (lt_ℤ y z)) [
    | inl above ↦ rw (not_below, above) (inc.0, insert-above y z ys inc.1 above)
    | inr same ↦ rw (not_below, same) inc
  ]
]

insert-IsIncreasing : (z : ℤ) (ys : List ℤ) → IsIncreasing ys → IsIncreasing (insert z ys)
unfolding insert
insert-IsIncreasing z [] inc = tt
insert-IsIncreasing z (y ∷ ys) inc = elim (Bool-cases (lt_ℤ z y)) [
  | inl below ↦ rw below (below, inc)
  | inr not_below ↦ elim (Bool-cases (lt_ℤ y z)) [
    | inl above ↦ rw (not_below, above) (insert-above y z ys inc above)
    | inr same ↦ rw (not_below, same) inc
  ]
]

pub sort-IsIncreasing : (zs : List ℤ) → IsIncreasing (sort zs)
unfolding sort
sort-IsIncreasing [] = tt
sort-IsIncreasing (z ∷ zs) = insert-IsIncreasing z (sort zs) (sort-IsIncreasing zs)

eq_of_not_lt : (z y : ℤ) → lt_ℤ z y ≡ false → lt_ℤ y z ≡ false → z ≡ y
eq_of_not_lt (pos a) (pos b) h k = ground arith
eq_of_not_lt (pos a) (negsuc b) h k = cc
eq_of_not_lt (negsuc a) (pos b) h k = cc
eq_of_not_lt (negsuc a) (negsuc b) h k = ground arith

lt_irrefl : (z : ℤ) → lt_ℤ z z ≡ false
lt_irrefl (pos n) = ground arith
lt_irrefl (negsuc n) = ground arith

-- `position` finds what is there.
position-at :
    (z : ℤ) (ys : List ℤ) (k : ℕ) → get_elem? ys k ≡ some z → get_elem? ys (position z ys) ≡ some z
unfolding position
position-at z [] k h = cc
position-at z (y ∷ ys) zero h = let e : y ≡ z = cc in rw e (ground (arith, lt_irrefl z))
position-at z (y ∷ ys) (suc k) h = ground (arith, position-at z ys k h, eq_of_not_lt z y)

insert-holds : (z : ℤ) (ys : List ℤ) → (k : ℕ) × (get_elem? (insert z ys) k ≡ some z)
unfolding insert
insert-holds z [] = (0, refl)
insert-holds z (y ∷ ys) = elim (Bool-cases (lt_ℤ z y)) [
  | inl below ↦ (0, rw below)
  | inr not_below ↦ elim (Bool-cases (lt_ℤ y z)) [
    | inl above ↦ let (k, at) = insert-holds z ys in (suc k, rw (not_below, above) at)
    | inr same ↦ (0, rw (not_below, same) (ap some (sym (eq_of_not_lt z y not_below same))))
  ]
]

behind :
    (y z : ℤ) (ys : List ℤ) (i : ℕ) (x : ℤ)
    → get_elem? (y ∷ ys) i ≡ some x
    → ((j : ℕ) → get_elem? ys j ≡ some x → (k : ℕ) × (get_elem? (insert z ys) k ≡ some x))
    → (k : ℕ) × (get_elem? (y ∷ insert z ys) k ≡ some x)
behind y z ys zero x at rec = (0, at)
behind y z ys (suc i) x at rec = let (k, e) = rec i at in (suc k, e)

insert-keeps :
    (z : ℤ) (ys : List ℤ) (i : ℕ) (x : ℤ)
    → get_elem? ys i ≡ some x
    → (k : ℕ) × (get_elem? (insert z ys) k ≡ some x)
unfolding insert
insert-keeps z [] i x at = cc
insert-keeps z (y ∷ ys) i x at = elim (Bool-cases (lt_ℤ z y)) [
  | inl below ↦ (suc i, rw below at)
  | inr not_below ↦ elim (Bool-cases (lt_ℤ y z)) [
    | inl above ↦
        let (k, e) = behind y z ys i x at (λ j f. insert-keeps z ys j x f) in
        (k, rw (not_below, above) e)
    | inr same ↦ (i, rw (not_below, same) at)
  ]
]

head_or_tail :
    (z : ℤ) (l : List ℤ) (k : ℕ) (x : ℤ)
    → get_elem? (z ∷ l) k ≡ some x
    → (z ≡ x) ⊎ ((i : ℕ) × (get_elem? l i ≡ some x))
head_or_tail z l zero x at = inl cc
head_or_tail z l (suc i) x at = inr (i, at)

before :
    (y z : ℤ) (ys : List ℤ) (x : ℤ)
    → (y ≡ x) ⊎ ((z ≡ x) ⊎ ((i : ℕ) × (get_elem? ys i ≡ some x)))
    → (z ≡ x) ⊎ ((i : ℕ) × (get_elem? (y ∷ ys) i ≡ some x))
before y z ys x (inl e) = inr (0, ap some e)
before y z ys x (inr (inl e)) = inl e
before y z ys x (inr (inr (i, at))) = inr (suc i, at)

insert-only :
    (z : ℤ) (ys : List ℤ) (k : ℕ) (x : ℤ)
    → get_elem? (insert z ys) k ≡ some x
    → (z ≡ x) ⊎ ((i : ℕ) × (get_elem? ys i ≡ some x))
unfolding insert
insert-only z [] zero x at = inl cc
insert-only z [] (suc k) x at = cc
insert-only z (y ∷ ys) k x at = elim (Bool-cases (lt_ℤ z y)) [
  | inl below ↦ head_or_tail z (y ∷ ys) k x (rw below at at)
  | inr not_below ↦ elim (Bool-cases (lt_ℤ y z)) [
    | inl above ↦ elim (head_or_tail y (insert z ys) k x (rw (not_below, above) at at)) [
      | inl e ↦ before y z ys x (inl e)
      | inr (i, e) ↦ before y z ys x (inr (insert-only z ys i x e))
    ]
    | inr same ↦ inr (k, rw (not_below, same) at at)
  ]
]

pub sort-only :
    (zs : List ℤ) (k : ℕ) (x : ℤ)
    → get_elem? (sort zs) k ≡ some x
    → (j : ℕ) × (get_elem? zs j ≡ some x)
unfolding sort
sort-only [] k x at = cc
sort-only (z ∷ zs) k x at = elim (insert-only z (sort zs) k x at) [
  | inl e ↦ (0, ap some e)
  | inr (i, e) ↦ let (j, there) = sort-only zs i x e in (suc j, there)
]

unfoldable pub inverse_in : List ℤ → List ℤ → List ℕ
unfolding position
inverse_in uniq zs = map (λ z. position z uniq) zs

-- Each element of `zs` has its place in an array that holds them all.
pub inverse_in-some :
    (uniq zs : List ℤ)
    → ((i : ℕ) (z : ℤ) → get_elem? zs i ≡ some z → (k : ℕ) × (get_elem? uniq k ≡ some z))
    → map (λ i. get_elem? uniq i) (inverse_in uniq zs) ≡ map some zs
unfolding inverse_in
inverse_in-some uniq [] h = refl
inverse_in-some uniq (z ∷ zs) h =
    let (k, at) = h 0 z refl in
    rw (position-at z uniq k at) (ap (◌∷◌ (some z)) (inverse_in-some uniq zs (λ i. h (suc i))))

pub sort-holds :
    (zs : List ℤ) (i : ℕ) (z : ℤ)
    → get_elem? zs i ≡ some z
    → (k : ℕ) × (get_elem? (sort zs) k ≡ some z)
unfolding sort
sort-holds [] i z at = cc
sort-holds (y ∷ zs) zero z at =
    let (k, e) = insert-holds y (sort zs) in let q : y ≡ z = cc in (k, e ∙ ap some q)
sort-holds (y ∷ zs) (suc i) z at =
    let (k, e) = sort-holds zs i z at in insert-keeps y (sort zs) k z e

abbrev pub sorting : Unique
sorting = record {
  unique = sort;
  inverse = λ zs. inverse_in (sort zs) zs;
  unique-IsIncreasing = sort-IsIncreasing;
  unique-inverse = λ zs. inverse_in-some (sort zs) zs (sort-holds zs);
  unique-only = sort-only;
}
