-- ===== src/StepProfile/Traces.antt =====
-- Which traces src/patch_step_profile.py removes before a capture.
use qwen3_8_flash_dgx_auto_r.Common.{
  ℕ, zero, suc, ◌+◌, ◌-◌, ◌≤◌, ◌<◌, ◌≡◌, refl, ap, ◌∙◌, Bool, true, false, not, ◌&&◌, List, [], ◌∷◌,
  ltb, leb, ◌==◌, if◌then◌else◌, length, take, arith, has, inl, inr, Bool-cases, ==_iff,
}
use qwen3_8_flash_dgx_auto_r.StepProfile.{insert, sorted, remove, remove_all, oldest, prune}

-- How many traces have a greater number.
abbrev pub above : ℕ → List ℕ → ℕ
above t [] = 0
above t (u ∷ us) = (if ltb t u then 1 else 0) + above t us

-- No number twice.
abbrev pub is_distinct : List ℕ → Bool
is_distinct [] = true
is_distinct (t ∷ ts) = not (has t ts) && is_distinct ts

abbrev pub IsSorted : List ℕ → Type 0
IsSorted [] = Unit {0}
IsSorted (t ∷ ts) = (above t ts ≡ length ts) × IsSorted ts

above-le : (t : ℕ) (us : List ℕ) → above t us ≤ length us
above-le t [] = omega arith
above-le t (u ∷ us) = ground (arith, above-le t us)

above_mono : (s t : ℕ) (us : List ℕ) → s < t → above t us ≤ above s us
above_mono s t [] h = omega arith
above_mono s t (u ∷ us) h = ground (arith, above_mono s t us)

above-insert : (s t : ℕ) (us : List ℕ) → above s (insert t us) ≡ above s (t ∷ us)
unfolding insert
above-insert s t [] = refl
above-insert s t (u ∷ us) = ground (arith, above-insert s t us)

length-insert : (t : ℕ) (us : List ℕ) → length (insert t us) ≡ length us + 1
unfolding insert
length-insert t [] = omega arith
length-insert t (u ∷ us) = ground (arith, length-insert t us)

has-insert : (s t : ℕ) (us : List ℕ) → has s (insert t us) ≡ has s (t ∷ us)
unfolding insert
has-insert s t [] = refl
has-insert s t (u ∷ us) = ground (arith, has-insert s t us)

insert-IsSorted : (t : ℕ) (us : List ℕ) → IsSorted us → has t us ≡ false → IsSorted (insert t us)
unfolding insert
insert-IsSorted t [] s h = (refl, tt)
insert-IsSorted t (u ∷ us) s h = elim (Bool-cases (ltb u t)) [
  | inl e ↦ rw e (
    ground (arith, above-insert u t us, length-insert t us, s.0),
    insert-IsSorted t us s.1 (ground arith),
  )
  | inr e ↦ rw e (ground (arith, above-le t us, above_mono t u us, s.0), s)
]

above-sorted : (s : ℕ) (ts : List ℕ) → above s (sorted ts) ≡ above s ts
unfolding sorted
above-sorted s [] = refl
above-sorted s (t ∷ ts) = above-insert s t (sorted ts) ∙ ground (arith, above-sorted s ts)

pub length-sorted : (ts : List ℕ) → length (sorted ts) ≡ length ts
unfolding sorted
length-sorted [] = refl
length-sorted (t ∷ ts) = omega (arith, length-insert t (sorted ts), length-sorted ts)

pub has-sorted : (s : ℕ) (ts : List ℕ) → has s (sorted ts) ≡ has s ts
unfolding sorted
has-sorted s [] = refl
has-sorted s (t ∷ ts) = has-insert s t (sorted ts) ∙ ground (arith, has-sorted s ts)

pub sorted-IsSorted : (ts : List ℕ) → is_distinct ts ≡ true → IsSorted (sorted ts)
unfolding sorted
sorted-IsSorted [] h = tt
sorted-IsSorted (t ∷ ts) h =
    insert-IsSorted t (sorted ts) (sorted-IsSorted ts (ground arith))
      (has-sorted t ts ∙ ground arith)

pub above-lt : (t : ℕ) (ts : List ℕ) → has t ts ≡ true → above t ts < length ts
above-lt t [] h = cc
above-lt t (u ∷ us) h = ground (arith, above-lt t us, above-le t us)

pub above-has : (t u : ℕ) (us : List ℕ) → above u us ≡ length us → has t us ≡ true → u < t
above-has t u [] s h = cc
above-has t u (v ∷ us) s h = ground (arith, above-has t u us, above-le u us)

-- A trace is among the first m exactly when the traces above it leave room for it there.
has-take :
    (t m : ℕ) (ts : List ℕ)
    → IsSorted ts
    → has t ts ≡ true
    → has t (take m ts) ≡ leb (length ts) (above t ts + m)
has-take t zero ts s h = ground (arith, above-lt t ts h)
has-take t (suc m) [] s h = cc
has-take t (suc m) (u ∷ us) s h = elim (Bool-cases (t == u)) [
  | inl e ↦ ground (arith, ap (λ v. above v us) ((==_iff t u).0 e), s.0)
  | inr e ↦ ground (arith, has-take t m us s.1, above-has t u us s.0)
]

pub has-remove : (s t : ℕ) (us : List ℕ) → has s (remove t us) ≡ (has s us && not (s == t))
unfolding remove
has-remove s t [] = refl
has-remove s t (u ∷ us) = ground (arith, has-remove s t us)

pub has-remove_all :
    (s : ℕ) (ts us : List ℕ) → has s (remove_all ts us) ≡ (has s us && not (has s ts))
unfolding remove_all
has-remove_all s [] us = ground arith
has-remove_all s (t ∷ ts) us = has-remove_all s ts (remove t us) ∙ ground (arith, has-remove s t us)

pub oldest_lem :
    (keep : ℕ) (traces : List ℕ)
    → 0 < keep
    → oldest keep traces ≡ take (length traces - keep) (sorted traces)
unfolding oldest
oldest_lem keep traces h = ground arith

-- Of traces with different numbers, the pruning leaves exactly those that have fewer than `keep`
-- traces above them.
pub prune-newest :
    (keep t : ℕ) (traces : List ℕ)
    → 0 < keep
    → is_distinct traces ≡ true
    → has t (prune keep traces) ≡ (has t traces && ltb (above t traces) keep)
unfolding prune
prune-newest keep t traces some_kept h =
    ap (λ ts. has t (remove_all ts traces)) (oldest_lem keep traces some_kept)
    ∙ has-remove_all t (take (length traces - keep) (sorted traces)) traces
    ∙ elim (Bool-cases (has t traces)) [
      | inr e ↦ rw e refl
      | inl e ↦ rw e (
          ground (
            arith,
            has-take t (length traces - keep) (sorted traces) (sorted-IsSorted traces h)
                (has-sorted t traces ∙ e),
            length-sorted traces,
            above-sorted t traces,
            above-lt t traces e,
          ))
    ]
