-- ===== src/Pin/Loan.antt =====
-- touch of src/patch_never_evict.py: a pinned block is lent to a request and comes back.
use qwen3_8_flash_dgx_auto_r.Common.{
  ℕ, ◌<◌, ◌≡◌, refl, ◌∙◌, sym, ap, ◌⊎◌, ◌↔◌, inl, inr, true, false, not, ◌&&◌, ◌||◌, Option, none,
  some, arith, ◌==◌, ==_iff, length, elem, discard, distinct, lookup, elem-discard, elem-erase_ne,
  elem-erase_self, distinct-erase, Bool-cases, Option-cases, ℕ_discrete,
}
use qwen3_8_flash_dgx_auto_r.Pin.{
  FreeQueue, BlockPool, claim_hash, acquire_pin, retain, take_out, touch,
}
use qwen3_8_flash_dgx_auto_r.Pin.Invariant.{in_pin, in_free, Holds, Inv, IsLoose}

module _ (F : FreeQueue) {K : Type 0} (dec : Discrete K) where
  open F use {Queue, to_list, remove, to_list-remove}

  retain-hash :
      (p : BlockPool F K) (b c : ℕ)
      → ((retain F dec p b).blocks c).block_hash ≡ (p.blocks c).block_hash
  unfolding retain
  retain-hash p b c = elim (Bool-cases (c == b)) [ inl e ↦ rw (e, (==_iff c b).0 e) | inr e ↦ rw e ]

  retain-Inv : (p : BlockPool F K) (b : ℕ) → Inv F dec p → Inv F dec (retain F dec p b)
  unfolding retain
  retain-Inv p b v = record {
    bounded = v.bounded;
    once = v.once;
    ids = v.ids;
    held = λ c h. let (k, hash, m, holder) = v.held c h in (k, retain-hash p b c ∙ hash, m, holder);
    apart = v.apart;
  }

  in_pin-remove :
      (q : Queue) (b c : ℕ)
      → distinct ℕ_discrete (to_list q) ≡ true
      → elem ℕ_discrete b (to_list q) ≡ true
      → elem ℕ_discrete c (to_list (remove q b))
        ≡ elim (ℕ_discrete c b) [ yes _ ↦ false | no _ ↦ elem ℕ_discrete c (to_list q) ]
  in_pin-remove q b c once member = rw (to_list-remove q b member) (
      ground (
        arith,
        elem-erase_ne ℕ_discrete c b (to_list q),
        elem-erase_self ℕ_discrete b (to_list q) once,
      ))

  -- In the pin queue or in the free queue.
  abbrev pub IsQueued : BlockPool F K → ℕ → Type 0
  IsQueued p b = (in_pin F dec p b || in_free F dec p b) ≡ true

  module _ (p : BlockPool F K) (b : ℕ) (v : Inv F dec p) (queued : IsQueued p b) where
    lend-Inv :
        in_pin F dec p b ≡ true
        → Inv F dec
            (record p { pinned_ids = discard ℕ_discrete b p.pinned_ids; pin = remove p.pin b })
    lend-Inv h = record {
      bounded = v.bounded;
      once = rw (to_list-remove p.pin b h) (distinct-erase ℕ_discrete b (to_list p.pin) v.once);
      ids = λ c. ground (
        arith,
        in_pin-remove p.pin b c v.once h,
        elem-discard ℕ_discrete c b p.pinned_ids,
        v.ids c,
      );
      held = λ c k. v.held c (ground (arith, in_pin-remove p.pin b c v.once h));
      apart = λ c k. v.apart c (ground (arith, in_pin-remove p.pin b c v.once h));
    }

    unqueue-Inv :
        in_pin F dec p b ≡ false
        → Inv F dec (record p { free_block_queue = remove p.free_block_queue b })
    unqueue-Inv h = record {
      bounded = v.bounded;
      once = v.once;
      ids = v.ids;
      held = v.held;
      apart = λ c k. rw (to_list-remove p.free_block_queue b (ground arith)) (
          rw
            (elem-erase_ne ℕ_discrete c b (to_list p.free_block_queue)
              (λ e. ground (arith, ap (in_pin F dec p) e)))
            (v.apart c k));
    }

    take_out-Inv : Inv F dec (take_out F dec p b)
    unfolding take_out
    take_out-Inv = elim (Bool-cases (elem ℕ_discrete b p.pinned_ids)) [
      | inl e ↦ rw e (lend-Inv (sym (v.ids b) ∙ e))
      | inr e ↦ rw e (unqueue-Inv (sym (v.ids b) ∙ e))
    ]

    -- touch keeps the invariant, for a block that waits in one of the queues when it has no
    -- reference.
    pub touch-Inv : Inv F dec (touch F dec p b)
    unfolding touch
    touch-Inv = elim (Bool-cases (((p.blocks b).ref_cnt == 0) && not (p.blocks b).is_null)) [
      | inl e ↦ rw e (retain-Inv (take_out F dec p b) b take_out-Inv)
      | inr e ↦ rw e (retain-Inv p b v)
    ]

  -- What lets _acquire_pin take a block: its hash is pinned, and reserved for it or free with room.
  abbrev pub MayPin : BlockPool F K → ℕ → Type 0
  MayPin p b =
      (key : K) × ((p.blocks b).block_hash ≡ some key)
      × (elem dec key p.pinned_hashes ≡ true)
      × ((lookup dec key p.pinned_by_hash ≡ some b)
          ⊎ ((lookup dec key p.pinned_by_hash ≡ none) × (length p.pinned_by_hash < p.pin_cap)))

  module _ (p : BlockPool F K) (b : ℕ) where
    claim_hash-of_may :
        (key : K) (holder : Option ℕ)
        → (holder ≡ some b) ⊎ ((holder ≡ none) × (length p.pinned_by_hash < p.pin_cap))
        → (claim_hash F dec p key b holder).1 ≡ true
    unfolding claim_hash
    claim_hash-of_may key none h = ground arith
    claim_hash-of_may key (some c) h = ground arith

    may-of_claim_hash :
        (key : K) (holder : Option ℕ)
        → (claim_hash F dec p key b holder).1 ≡ true
        → (holder ≡ some b) ⊎ ((holder ≡ none) × (length p.pinned_by_hash < p.pin_cap))
    unfolding claim_hash
    may-of_claim_hash key none h = ground arith
    may-of_claim_hash key (some c) h = ground arith

    acquire_pin-of_may : MayPin p b → (acquire_pin F dec p b).1 ≡ true
    unfolding acquire_pin
    acquire_pin-of_may (key, hash, m, h) = rw (hash, acquire_pin, m) (claim_hash-of_may key _ h)

    may-of_acquire_pin : (acquire_pin F dec p b).1 ≡ true → MayPin p b
    unfolding acquire_pin
    may-of_acquire_pin h = elim (Option-cases (p.blocks b).block_hash) [
      | inl e ↦ cc (rw (e, acquire_pin) at h)
      | inr (key, e) ↦ elim (Bool-cases (elem dec key p.pinned_hashes)) [
        | inl m ↦ (key, e, m, may-of_claim_hash key _ (rw (e, acquire_pin, m) at h))
        | inr m ↦ cc (rw (e, acquire_pin, m) at h)
      ]
    ]

    -- _acquire_pin takes a block exactly when its hash is pinned and the reservation of that hash
    -- names this block, or there is none and fewer than pin_cap hashes are reserved.
    pub acquire_pin_iff : ((acquire_pin F dec p b).1 ≡ true) ↔ MayPin p b
    acquire_pin_iff = (may-of_acquire_pin, acquire_pin-of_may)

  module _ (p : BlockPool F K) (b : ℕ) where
    lent : BlockPool F K
    lent = record p { pinned_ids = discard ℕ_discrete b p.pinned_ids; pin = remove p.pin b }

    touch-lent :
        Inv F dec p
        → in_pin F dec p b ≡ true
        → (p.blocks b).ref_cnt ≡ 0
        → (p.blocks b).is_null ≡ false
        → touch F dec p b ≡ retain F dec lent b
    unfolding touch take_out lent
    touch-lent v h idle live = simp (idle, live, v.ids b ∙ h)

    may_return : Holds F dec p b → MayPin (retain F dec lent b) b
    unfolding lent retain
    may_return (key, hash, m, holder) = (key, retain-hash p b b ∙ hash, m, inl holder)

    -- In a valid pool, a pinned block with no reference that is not the null block leaves both
    -- queues when it is touched and keeps its reservation; when it is freed again _acquire_pin
    -- takes it back.
    pub touch-acquire_pin :
        Inv F dec p
        → in_pin F dec p b ≡ true
        → (p.blocks b).ref_cnt ≡ 0
        → (p.blocks b).is_null ≡ false
        → IsLoose F dec (touch F dec p b) b
          × ((touch F dec p b).pinned_by_hash ≡ p.pinned_by_hash)
          × ((acquire_pin F dec (touch F dec p b) b).1 ≡ true)
    unfolding retain lent
    touch-acquire_pin v h idle live = rw (touch-lent v h idle live) (
      (ground (arith, in_pin-remove p.pin b b v.once h), v.apart b h),
      refl,
      acquire_pin-of_may (retain F dec (lent) b) b (may_return (v.held b h)),
    )
