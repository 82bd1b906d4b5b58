-- ===== src/Scheduler/Rearm.antt =====
-- Arming the pin of src/patch_never_evict.py again and again, and after reset_prefix_cache.
use qwen3_8_flash_dgx_auto_r.Common.{
  ℕ, ◌≡◌, refl, sym, ap, ◌∙◌, inl, inr, true, false, List, Option, none, some, arith, elem,
  same_set, same_set_refl, elem-same_set, Bool-cases,
}
use qwen3_8_flash_dgx_auto_r.Pin.{FreeQueue}
use qwen3_8_flash_dgx_auto_r.Pin.Invariant.{Inv}
use qwen3_8_flash_dgx_auto_r.Pin.Replace.{set_pinned_hashes-replaces, pinned-drop_pin}
use qwen3_8_flash_dgx_auto_r.Scheduler.{
  Group, Request, Hashing, Scheduler, prompt_hashes, same_as_last, arm_never_evict_pin,
  reset_prefix_cache,
}

module _ {H K : Type 0} (dec : Discrete K) (h : Hashing H K) (F : FreeQueue) {Fraction : Type 0}
    (int_of : ℕ → Fraction → ℕ) (f : Fraction) (groups : List Group) where
  abbrev hashes_of : Request H → List K
  hashes_of = prompt_hashes dec h groups

  abbrev arm : Scheduler F K → Request H → Scheduler F K
  arm = arm_never_evict_pin dec h F int_of f groups

  abbrev reset : Fraction → Scheduler F K → Scheduler F K
  reset = reset_prefix_cache dec h F int_of f groups

  -- The pool pins what the scheduler remembers as armed.
  abbrev pub IsSynced : Scheduler F K → Type 0
  IsSynced s =
      (hs : List K)
      → s.pin_last_hashes ≡ some hs
      → (k : K) → elem dec k s.block_pool.pinned_hashes ≡ elem dec k hs

  same_as_last→some :
      (hs : List K) (last : Option (List K))
      → same_as_last dec h F int_of f groups hs last ≡ true
      → (l : List K) × (last ≡ some l) × (same_set dec hs l ≡ true)
  unfolding same_as_last
  same_as_last→some hs none e = cc
  same_as_last→some hs (some l) e = (l, refl, e)

  -- In a pool that satisfies the invariant, and pins what was armed last, arming for a request
  -- makes the pool pin exactly that request's hashes, and keeps both conditions.
  pub arm-pins :
      (s : Scheduler F K) (r : Request H)
      → Inv F dec s.block_pool
      → IsSynced s
      → Inv F dec (arm s r).block_pool
        × IsSynced (arm s r)
        × ((k : K) → elem dec k (arm s r).block_pool.pinned_hashes ≡ elem dec k (hashes_of r))
  unfolding arm_never_evict_pin
  arm-pins s r v synced =
      elim (Bool-cases (same_as_last dec h F int_of f groups (hashes_of r) s.pin_last_hashes)) [
        | inl e ↦
            let (l, last, same) = same_as_last→some (hashes_of r) s.pin_last_hashes e in
            rw e (v, synced, λ k. synced l last k ∙ sym (elem-same_set dec k (hashes_of r) l same))
        | inr e ↦
            let (inv, pinned, _, _, _) =
              set_pinned_hashes-replaces F dec int_of s.block_pool (hashes_of r) f v in
            rw e (
              inv,
              λ hs last k. let q : hashes_of r ≡ hs = cc in pinned k ∙ ap (elem dec k) q,
              pinned,
            )
      ]

  remembers :
      (s : Scheduler F K) (r : Request H)
      → same_as_last dec h F int_of f groups (hashes_of r) (arm s r).pin_last_hashes ≡ true
  unfolding arm_never_evict_pin same_as_last
  remembers s r = ground (arith, same_set_refl dec (hashes_of r))

  arm_idle :
      (t : Scheduler F K) (r : Request H)
      → same_as_last dec h F int_of f groups (hashes_of r) t.pin_last_hashes ≡ true
      → arm t r ≡ t
  unfolding arm_never_evict_pin
  arm_idle t r e = rw e

  -- A request armed before reset_prefix_cache and again after it pins nothing: the scheduler still
  -- takes its hashes for armed, and the pool has dropped them. The pool is valid and pins what was
  -- armed last.
  pub arm-reset-arm_unpinned :
      (s : Scheduler F K) (r : Request H) (zero_fraction : Fraction)
      → Inv F dec s.block_pool
      → IsSynced s
      → (k : K)
      → elem dec k (arm (reset zero_fraction (arm s r)) r).block_pool.pinned_hashes ≡ false
  unfolding reset_prefix_cache
  arm-reset-arm_unpinned s r zero_fraction v synced k =
      rw (arm_idle (reset zero_fraction (arm s r)) r (remembers s r)) (
        pinned-drop_pin F dec int_of (arm s r).block_pool zero_fraction (arm-pins s r v synced).0 k)
