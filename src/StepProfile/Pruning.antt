-- ===== src/StepProfile/Pruning.antt =====
-- How many traces src/patch_step_profile.py leaves before a capture.
use qwen3_8_flash_dgx_auto_r.Common.{
  ℕ, zero, suc, ◌+◌, ◌-◌, ◌≤◌, ◌<◌, ◌≡◌, refl, sym, ap, ◌∙◌, true, false, List, [], ◌∷◌, ◌==◌,
  length, take, arith, has, inl, inr, Bool-cases, ==_iff, All, length-take, eq_refl,
}
use qwen3_8_flash_dgx_auto_r.StepProfile.{sorted, remove, remove_all, prune}
use qwen3_8_flash_dgx_auto_r.StepProfile.Traces.{
  is_distinct, IsSorted, has-remove, above-lt, sorted-IsSorted, length-sorted, has-sorted,
  oldest_lem,
}

pub remove-is_distinct :
    (t : ℕ) (us : List ℕ) → is_distinct us ≡ true → is_distinct (remove t us) ≡ true
unfolding remove
remove-is_distinct t [] h = refl
remove-is_distinct t (u ∷ us) h = ground (arith, remove-is_distinct t us, has-remove u t us)

pub remove_absent : (t : ℕ) (us : List ℕ) → has t us ≡ false → remove t us ≡ us
unfolding remove
remove_absent t [] h = refl
remove_absent t (u ∷ us) h = ground (arith, remove_absent t us)

length-remove :
    (t : ℕ) (us : List ℕ)
    → is_distinct us ≡ true
    → has t us ≡ true
    → length (remove t us) + 1 ≡ length us
unfolding remove
length-remove t [] d h = cc
length-remove t (u ∷ us) d h = elim (Bool-cases (t == u)) [
  | inl e ↦
      let absent : has t us ≡ false = ap (λ v. has v us) ((==_iff t u).0 e) ∙ ground arith in
      rw (e, remove_absent t us absent) (omega arith)
  | inr e ↦ rw e (ground (arith, length-remove t us))
]

-- Each number of the first list is in the second.
abbrev AreIn : List ℕ → List ℕ → Type 0
AreIn ts us = All (λ t. has t us ≡ true) ts

remove-AreIn : (t : ℕ) (ts us : List ℕ) → has t ts ≡ false → AreIn ts us → AreIn ts (remove t us)
remove-AreIn t [] us h a = tt
remove-AreIn t (s ∷ ts) us h a =
    (ground (arith, has-remove s t us, a.0), remove-AreIn t ts us (ground arith) a.1)

length-remove_all :
    (ts us : List ℕ)
    → is_distinct ts ≡ true
    → is_distinct us ≡ true
    → AreIn ts us
    → (length (remove_all ts us) + length ts ≡ length us) × (is_distinct (remove_all ts us) ≡ true)
unfolding remove_all
length-remove_all [] us d e a = (omega arith, e)
length-remove_all (t ∷ ts) us d e a =
    let (l, f) =
      length-remove_all ts (remove t us) (ground arith) (remove-is_distinct t us e)
        (remove-AreIn t ts us (ground arith) a.1) in
    (omega (arith, l, length-remove t us e a.0), f)

sorted-is_distinct : (ts : List ℕ) → IsSorted ts → is_distinct ts ≡ true
sorted-is_distinct [] s = refl
sorted-is_distinct (t ∷ ts) s = ground (arith, above-lt t ts, sorted-is_distinct ts s.1, s.0)

has-take_sub : (s n : ℕ) (ts : List ℕ) → has s (take n ts) ≡ true → has s ts ≡ true
has-take_sub s zero ts h = cc
has-take_sub s (suc n) [] h = cc
has-take_sub s (suc n) (t ∷ ts) h = ground (arith, has-take_sub s n ts)

take-is_distinct : (n : ℕ) (ts : List ℕ) → is_distinct ts ≡ true → is_distinct (take n ts) ≡ true
take-is_distinct zero ts d = refl
take-is_distinct (suc n) [] d = refl
take-is_distinct (suc n) (t ∷ ts) d = ground (arith, take-is_distinct n ts, has-take_sub t n ts)

AreIn-cons : (t : ℕ) (ts us : List ℕ) → AreIn ts us → AreIn ts (t ∷ us)
AreIn-cons t [] us a = tt
AreIn-cons t (s ∷ ts) us a = (ground (arith, a.0), AreIn-cons t ts us a.1)

take-AreIn : (n : ℕ) (ts : List ℕ) → AreIn (take n ts) ts
take-AreIn zero ts = tt
take-AreIn (suc n) [] = tt
take-AreIn (suc n) (t ∷ ts) =
    (ground (arith, eq_refl t), AreIn-cons t (take n ts) ts (take-AreIn n ts))

AreIn-sorted : (ts us : List ℕ) → AreIn ts (sorted us) → AreIn ts us
AreIn-sorted [] us a = tt
AreIn-sorted (t ∷ ts) us a = (sym (has-sorted t us) ∙ a.0, AreIn-sorted ts us a.1)

-- After the pruning at most `keep` traces are left, with different numbers.
pub prune-bounded :
    (keep : ℕ) (traces : List ℕ)
    → 0 < keep
    → is_distinct traces ≡ true
    → (length (prune keep traces) ≤ keep) × (is_distinct (prune keep traces) ≡ true)
unfolding prune
prune-bounded keep traces some_kept d =
    let m = length traces - keep in
    let s = sorted-IsSorted traces d in
    let (l, e) =
      length-remove_all (take m (sorted traces)) traces
        (take-is_distinct m (sorted traces) (sorted-is_distinct (sorted traces) s)) d
        (AreIn-sorted (take m (sorted traces)) traces (take-AreIn m (sorted traces))) in
    rw (oldest_lem keep traces some_kept)
      (omega (arith, l, length-take {0} m (sorted traces), length-sorted traces), e)
