-- ===== src/Ple/Prefetch/Submit.antt =====
-- A submitted prefetch of src/vllm_ple_mmap.py.
use qwen3_8_flash_dgx_auto_r.Common.{
  ℕ, ◌<◌, ◌≡◌, refl, sym, ap, ◌∙◌, subst, Bool, true, false, not, ◌||◌, List, [], ◌∷◌, ◌++◌, Option,
  none, some, ◌==◌, has, inl, inr, Bool-cases, some_injective, arith,
}
use qwen3_8_flash_dgx_auto_r.Ple.Prefetch.{Pipe, same, is_stuck, submit}
use qwen3_8_flash_dgx_auto_r.Ple.Prefetch.Promise.{
  held, Once, first_in, same_sound, same_refl, IsKept, Refines,
}

held-append :
    (busy : Option (ℕ × List ℕ)) (q : List ℕ) (n : ℕ)
    → held busy (q ++ n ∷ []) ≡ held busy q ++ n ∷ []
held-append none q n = refl
held-append (some (j, ids)) q n = refl

has-append : (k n : ℕ) (q : List ℕ) → has k (q ++ n ∷ []) ≡ (has k q || (k == n))
has-append k n [] = ground arith
has-append k n (j ∷ q) = ground (arith, has-append k n q)

Once-append : (n : ℕ) (q : List ℕ) → has n q ≡ false → Once q → Once (q ++ n ∷ [])
Once-append n [] new once = (refl, tt)
Once-append n (j ∷ q) new (alone, once) =
    (ground (arith, has-append j n q, new, alone), Once-append n q (ground (arith, new)) once)

module _ {Row : Type 0} (gather : List ℕ → Option (List Row)) (a : Option (List ℕ)) where
  -- A slot whose last job is done has no job that waits, and the new job is none of those.
  module _ (s : Pipe Row) (free : is_stuck s.store (s.jobs s.slot) ≡ false)
      (v : Refines gather s a) where
    waits-old : (k : ℕ) → has k (held s.busy s.queue) ≡ true → k < s.next
    waits-old k h = (v.kept_of (s.store k).base k (v.waits_of k h).1).0

    waits-apart :
        (k : ℕ) → has k (held s.busy s.queue) ≡ true → same s.slot (s.store k).base ≡ false
    waits-apart k h = elim (Bool-cases (same s.slot (s.store k).base)) [
      | inr apart ↦ apart
      | inl hit ↦
          let there : s.jobs s.slot ≡ some k =
            ap s.jobs (same_sound s.slot (s.store k).base hit) ∙ (v.waits_of k h).1 in
          let idle : not (s.store k).is_done ≡ false = sym (ap (is_stuck s.store) there) ∙ free in
          ground (arith, idle, v.waits_of k h)
    ]

    new_apart : has s.next (held s.busy s.queue) ≡ false
    new_apart = elim (Bool-cases (has s.next (held s.busy s.queue))) [
      | inr apart ↦ apart
      | inl hit ↦ absurd (omega (arith, waits-old s.next hit))
    ]

    submit-kept :
        (ids : List ℕ) (b : Bool) (k : ℕ)
        → (submit ids s).jobs b ≡ some k
        → IsKept gather (submit ids s) b k
    unfolding submit
    submit-kept ids b k f = elim (Bool-cases (same s.slot b)) [
      | inl hit ↦
          let taken_here : (submit ids s).jobs b ≡ some s.next = rw hit refl in
          let is_new : k ≡ s.next = some_injective (sym f ∙ taken_here) in
          ground (arith, is_new, hit, same_sound s.slot b hit)
      | inr miss ↦
          let stays : (submit ids s).jobs b ≡ s.jobs b = rw miss refl in
          let kept = v.kept_of b k (sym stays ∙ f) in ground (arith, kept, miss)
    ]

    submit-waits :
        (ids : List ℕ) (k : ℕ)
        → has k (held s.busy (s.queue ++ s.next ∷ [])) ≡ true
        → (((submit ids s).store k).is_done ≡ false)
          × ((submit ids s).jobs ((submit ids s).store k).base ≡ some k)
    unfolding submit
    submit-waits ids k h =
        let split : (has k (held s.busy s.queue) || (k == s.next)) ≡ true =
          sym (has-append k s.next (held s.busy s.queue))
          ∙ ap (has k) (sym (held-append s.busy s.queue s.next))
          ∙ h in
        elim (Bool-cases (k == s.next)) [
          | inl new ↦ rw new (refl, rw (same_refl s.slot) (ap some (ground (arith, new))))
          | inr before ↦
              let waiting : has k (held s.busy s.queue) ≡ true = ground (arith, split, before) in
              rw (before, waits-apart k waiting) (v.waits_of k waiting)
        ]

    pub submit-Refines : (ids : List ℕ) → Refines gather (submit ids s) (some ids)
    unfolding submit
    submit-Refines ids = record {
      kept_of = submit-kept ids;
      waits_of = submit-waits ids;
      once_of =
          subst Once (sym (held-append s.busy s.queue s.next))
            (Once-append s.next (held s.busy s.queue) new_apart v.once_of);
      read_of = λ k is f.
          let waiting : has k (held s.busy s.queue) ≡ true =
            ap (λ o. has k (held o s.queue)) f ∙ first_in k s.queue in
          let older : (k == s.next) ≡ false = ground (arith, waits-old k waiting) in
          rw (older, waits-apart k waiting) (v.read_of k is f);
      pending_of = λ k f.
          let new : (k == s.next) ≡ true = ground (arith, some_injective f) in
          rw (new, same_refl s.slot) (f, refl);
    }
