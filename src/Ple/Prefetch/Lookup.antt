-- ===== src/Ple/Prefetch/Lookup.antt =====
-- Lookups of src/vllm_ple_mmap.py after a prefetch.
use qwen3_8_flash_dgx_auto_r.Common.{
  ℕ, ◌≡◌, ◌⊎◌, refl, sym, ap, ◌∙◌, subst, Bool, true, false, List, [], ◌∷◌, Option, none, some,
  length, some_injective, inl, inr,
}
use qwen3_8_flash_dgx_auto_r.Ple.Prefetch.{
  Pipe, prefetch, take_job, finish_job, consume, prefer, lookup_impl, prefetched, consumed,
}
use qwen3_8_flash_dgx_auto_r.Ple.Prefetch.Promise.{Allowed, skips, accepts, misses, hits, Refines}
use qwen3_8_flash_dgx_auto_r.Ple.Prefetch.Worker.{take_job-Refines, finish_job-Refines}
use qwen3_8_flash_dgx_auto_r.Ple.Prefetch.Refine.{prefetch-IsAllowed, consume-IsAllowed}

prefer_same : {A : Type 0} (o : Option A) → prefer o o ≡ o
prefer_same none = refl
prefer_same (some a) = refl

-- What was asked for is this.
the_same :
    (a : Option (List ℕ)) (ids js : List ℕ) → (a ≡ none) ⊎ (a ≡ some ids) → a ≡ some js → js ≡ ids
the_same a ids js (inl e) f = cc
the_same a ids js (inr e) f = some_injective (sym f ∙ e)

module _ {Row : Type 0} (gather : List ℕ → Option (List Row)) where
  prefetched-inv :
      (a a' : Option (List ℕ)) (ids : List ℕ) (out : Option (List Row))
      → Allowed gather a (prefetched ids) out a'
      → (a' ≡ a) ⊎ (a' ≡ some ids)
  prefetched-inv a _ ids _ (skips _ _) = inl refl
  prefetched-inv a _ ids _ (accepts _ _) = inr refl

  consumed-inv :
      (a a' : Option (List ℕ)) (want : ℕ) (out : Option (List Row))
      → Allowed gather a (consumed want) out a'
      → (a' ≡ none) × ((out ≡ none) ⊎ ((ids : List ℕ) × (a ≡ some ids) × (gather ids ≡ out)))
  consumed-inv a _ want _ (misses _ _) = (refl, inl refl)
  consumed-inv a _ want _ (hits _ ids _ rows asked sized found) = (refl, inr (ids, asked, found))

  -- Steps of the worker: to take a job, or to finish one.
  pub work : List Bool → Pipe Row → Pipe Row
  work [] s = s
  work (true ∷ ws) s = work ws (take_job s)
  work (false ∷ ws) s = work ws (finish_job gather s)

  work-Refines :
      (a : Option (List ℕ)) (ws : List Bool) (s : Pipe Row)
      → Refines gather s a
      → Refines gather (work ws s) a
  unfolding work
  work-Refines a [] s v = v
  work-Refines a (true ∷ ws) s v = work-Refines a ws (take_job s) (take_job-Refines gather a s v)
  work-Refines a (false ∷ ws) s v =
      work-Refines a ws (finish_job gather s) (finish_job-Refines gather a s v)

  -- A lookup of the ids that were prefetched last, or with nothing that is pending.
  lookup_impl-same :
      (a : Option (List ℕ)) (ids : List ℕ) (want : ℕ) (s : Pipe Row)
      → (a ≡ none) ⊎ (a ≡ some ids)
      → Refines gather s a
      → ((lookup_impl true (gather ids) want s).0 ≡ gather ids)
        × Refines gather (lookup_impl true (gather ids) want s).1 none
  unfolding lookup_impl
  lookup_impl-same a ids want s asked v =
      let (a', allowed, v') = consume-IsAllowed gather a want s v in
      let (cleared, got) = consumed-inv a a' want (consume want s).0 allowed in
      (
        elim got [
          | inl none_got ↦ ap (λ o. prefer o (gather ids)) none_got
          | inr (js, of, found) ↦
              let rows : (consume want s).0 ≡ gather ids =
                sym found ∙ ap gather (the_same a ids js asked of) in
              ap (λ o. prefer o (gather ids)) rows ∙ prefer_same (gather ids)
        ],
        subst (Refines gather (consume want s).1) cleared v',
      )

  -- From a state that keeps the promise with nothing pending: when some ids are prefetched, the
  -- worker takes any steps, and a lookup of as many rows follows, whose original forward gathers
  -- those ids, then the lookup gives what that gather gives, whether the prefetch was taken, late,
  -- failed or skipped, and the state keeps the promise with nothing pending.
  pub lookup_impl-gather :
      (slot_rows : ℕ) (ids : List ℕ) (ws : List Bool) (s : Pipe Row)
      → Refines gather s none
      → ((lookup_impl true (gather ids) (length ids) (work ws (prefetch slot_rows ids s))).0
          ≡ gather ids)
        × Refines gather
            (lookup_impl true (gather ids) (length ids) (work ws (prefetch slot_rows ids s))).1
            none
  lookup_impl-gather slot_rows ids ws s v =
      let (a, allowed, v') = prefetch-IsAllowed gather none slot_rows ids s v in
      lookup_impl-same a ids (length ids) (work ws (prefetch slot_rows ids s))
        (prefetched-inv none a ids none allowed) (work-Refines a ws (prefetch slot_rows ids s) v')
