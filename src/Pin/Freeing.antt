-- ===== src/Pin/Freeing.antt =====
-- free_blocks of src/patch_never_evict.py: where each freed block goes.
use qwen3_8_flash_dgx_auto_r.Common.{
  ℕ, ◌≡◌, refl, ◌∙◌, ap, inl, inr, true, false, not, ◌&&◌, ◌||◌, List, [], ◌∷◌, arith, is_empty,
  elem_of_is_empty, elem, distinct, elem-append, Bool-cases, ℕ_discrete,
}
use qwen3_8_flash_dgx_auto_r.Pin.{
  FreeQueue, BlockPool, enqueue_pin, claim_hash, acquire_pin, unclaimed, free_blocks,
}
use qwen3_8_flash_dgx_auto_r.Pin.Invariant.{
  in_pin, in_free, Inv, IsLoose, in_pin-append, acquire_pin-Inv,
}

module _ (F : FreeQueue) {K : Type 0} (dec : Discrete K) where
  open F use {Queue, to_list, prepend_n, to_list-prepend_n}

  pub acquire_pin-free :
      (p : BlockPool F K) (b : ℕ) → (acquire_pin F dec p b).0.free_block_queue ≡ p.free_block_queue
  unfolding acquire_pin claim_hash enqueue_pin
  acquire_pin-free p b = ground arith

  pub in_pin-acquire_pin :
      (p : BlockPool F K) (b c : ℕ)
      → in_pin F dec (acquire_pin F dec p b).0 c ≡ elim (ℕ_discrete c b) [
        | yes _ ↦ (acquire_pin F dec p b).1 || in_pin F dec p c
        | no _ ↦ in_pin F dec p c
      ]
  unfolding acquire_pin claim_hash enqueue_pin
  in_pin-acquire_pin p b c = ground (arith, in_pin-append F dec p.pin b c)

  abbrev pub AllLoose : BlockPool F K → List ℕ → Type 0
  AllLoose p bs = (c : ℕ) → elem ℕ_discrete c bs ≡ true → IsLoose F dec p c

  -- What `unclaimed` makes of the pool: every block is either pinned or left in the list.
  record Sorted (p : BlockPool F K) (bs : List ℕ) (r : BlockPool F K × List ℕ) : Type 0 where
    inv : Inv F dec r.0
    free : r.0.free_block_queue ≡ p.free_block_queue
    pin_of :
        (c : ℕ)
        → in_pin F dec r.0 c
          ≡ (in_pin F dec p c || (elem ℕ_discrete c bs && not (elem ℕ_discrete c r.1)))
    rest_of : (c : ℕ) → elem ℕ_discrete c r.1 ≡ true → elem ℕ_discrete c bs ≡ true

  module _ (p : BlockPool F K) (b : ℕ) (bs : List ℕ) where
    rest_loose :
        distinct ℕ_discrete (b ∷ bs) ≡ true
        → AllLoose p (b ∷ bs)
        → AllLoose (acquire_pin F dec p b).0 bs
    unfolding elem distinct
    rest_loose d loose c h = (
      ground (arith, in_pin-acquire_pin p b c, loose c),
      rw (acquire_pin-free p b) (loose c (ground arith)).1,
    )

    Sorted-cons :
        elem ℕ_discrete b bs ≡ false
        → Sorted (acquire_pin F dec p b).0 bs (unclaimed F dec (acquire_pin F dec p b).0 bs)
        → Sorted p (b ∷ bs) (unclaimed F dec p (b ∷ bs))
    unfolding unclaimed elem
    Sorted-cons fresh s = record {
      inv = s.inv;
      free = s.free ∙ acquire_pin-free p b;
      pin_of = λ c. ground (arith, s.pin_of c, s.rest_of c, s.rest_of b, in_pin-acquire_pin p b c);
      rest_of = λ c h. ground (arith, s.rest_of c);
    }

  unclaimed-Sorted :
      (p : BlockPool F K) (bs : List ℕ)
      → Inv F dec p
      → distinct ℕ_discrete bs ≡ true
      → AllLoose p bs
      → Sorted p bs (unclaimed F dec p bs)
  unfolding unclaimed elem distinct
  unclaimed-Sorted p [] v d loose = record {
    inv = v;
    free = refl;
    pin_of = λ c. ground arith;
    rest_of = λ c h. h;
  }
  unclaimed-Sorted p (b ∷ bs) v d loose = Sorted-cons p b bs (ground arith) (
      unclaimed-Sorted (acquire_pin F dec p b).0 bs
        (acquire_pin-Inv F dec p b v (loose b (ground arith))) (ground arith)
        (rest_loose p b bs d loose))

  -- Each block of `first` is in exactly one of the pin and the free queue, and not handed back; each
  -- block of `last` is in exactly one of the pin and the list that is handed back, and not in the
  -- free queue; nothing else moves.
  pub record Freed (p : BlockPool F K) (first last : List ℕ) (r : BlockPool F K × List ℕ)
      : Type 0 where
    pub inv : Inv F dec r.0
    pub first_of :
        (c : ℕ)
        → elem ℕ_discrete c first ≡ true
        → (in_free F dec r.0 c ≡ not (in_pin F dec r.0 c)) × (elem ℕ_discrete c r.1 ≡ false)
    pub last_of :
        (c : ℕ)
        → elem ℕ_discrete c last ≡ true
        → (elem ℕ_discrete c r.1 ≡ not (in_pin F dec r.0 c)) × (in_free F dec r.0 c ≡ false)
    pub others :
        (c : ℕ)
        → elem ℕ_discrete c first ≡ false
        → elem ℕ_discrete c last ≡ false
        → (in_pin F dec r.0 c ≡ in_pin F dec p c)
          × (in_free F dec r.0 c ≡ in_free F dec p c)
          × (elem ℕ_discrete c r.1 ≡ false)

  in_free-prepend_n :
      (p : BlockPool F K) (bs : List ℕ) (c : ℕ)
      → elem ℕ_discrete c (to_list (prepend_n p.free_block_queue bs))
        ≡ (elem ℕ_discrete c bs || in_free F dec p c)
  in_free-prepend_n p bs c =
      rw (to_list-prepend_n p.free_block_queue bs) (elem-append ℕ_discrete c bs _)

  prepend-Inv :
      (p : BlockPool F K) (bs : List ℕ)
      → Inv F dec p
      → ((c : ℕ) → elem ℕ_discrete c bs ≡ true → in_pin F dec p c ≡ false)
      → Inv F dec (record p { free_block_queue = prepend_n p.free_block_queue bs })
  prepend-Inv p bs v outside = record {
    bounded = v.bounded;
    once = v.once;
    ids = v.ids;
    held = v.held;
    apart = λ c h. ground (arith, in_free-prepend_n p bs c, v.apart c, outside c);
  }

  module _ (p : BlockPool F K) (first last : List ℕ) (v : Inv F dec p)
      (first_once : distinct ℕ_discrete first ≡ true) (last_once : distinct ℕ_discrete last ≡ true)
      (disjoint : (c : ℕ) → elem ℕ_discrete c first ≡ true → elem ℕ_discrete c last ≡ false)
      (first_loose : AllLoose p first) (last_loose : AllLoose p last) where
    last_still_loose :
        Sorted p first (unclaimed F dec p first) → AllLoose (unclaimed F dec p first).0 last
    last_still_loose s c h = (
      ground (arith, s.pin_of c, s.rest_of c, disjoint c, last_loose c h),
      rw s.free (last_loose c h).1,
    )

    unclaimed_twice :
        (r s : BlockPool F K × List ℕ)
        → Sorted p first r
        → Sorted r.0 last s
        → Freed p first last
            (record s.0 { free_block_queue = prepend_n s.0.free_block_queue r.1 }, s.1)
    unclaimed_twice r s a b = record {
      inv =
          prepend-Inv s.0 r.1 b.inv
            (λ c h. ground (arith, a.pin_of c, b.pin_of c, a.rest_of c, first_loose c, disjoint c));
      first_of = λ c h. (
        ground (
          arith,
          in_free-prepend_n s.0 r.1 c,
          a.pin_of c,
          b.pin_of c,
          first_loose c,
          disjoint c,
          b.inv.apart c,
          ap (λ q. elem ℕ_discrete c (to_list q)) (b.free ∙ a.free),
        ),
        ground (arith, b.rest_of c, disjoint c),
      );
      last_of = λ c h. (
        ground (arith, a.pin_of c, b.pin_of c, last_loose c, disjoint c),
        ground (
          arith,
          in_free-prepend_n s.0 r.1 c,
          a.rest_of c,
          last_loose c,
          disjoint c,
          ap (λ q. elem ℕ_discrete c (to_list q)) (b.free ∙ a.free),
        ),
      );
      others = λ c h k. (
        ground (arith, a.pin_of c, b.pin_of c),
        ground (
          arith,
          in_free-prepend_n s.0 r.1 c,
          a.rest_of c,
          ap (λ q. elem ℕ_discrete c (to_list q)) (b.free ∙ a.free),
        ),
        ground (arith, b.rest_of c),
      );
    }

    pin_is_empty : is_empty p.pinned_hashes ≡ true → (c : ℕ) → in_pin F dec p c ≡ false
    pin_is_empty e c = elim (Bool-cases (in_pin F dec p c)) [
      | inl h ↦ let (key, _, m, _) = v.held c h in cc (elem_of_is_empty dec key p.pinned_hashes e)
      | inr h ↦ h
    ]

    -- With a valid pool and two disjoint lists of blocks that are in neither queue, free_blocks
    -- keeps the invariant, and each block ends in exactly one place: one of the first list in the
    -- pin or the free queue and not in the list for the stock code, one of the second in the pin or
    -- that list and not in the free queue. No other block moves.
    pub free_blocks-Freed : Freed p first last (free_blocks F dec p first last)
    unfolding free_blocks
    free_blocks-Freed = elim (Bool-cases (is_empty p.pinned_hashes)) [
      | inl e ↦ rw e (record {
        inv = prepend-Inv p first v (λ c h. (first_loose c h).0);
        first_of = λ c h. (
          ground (arith, in_free-prepend_n p first c, pin_is_empty e c),
          ground (arith, disjoint c),
        );
        last_of = λ c h. (
          ground (arith, pin_is_empty e c),
          ground (arith, in_free-prepend_n p first c, last_loose c h, disjoint c),
        );
        others = λ c h k. (refl, ground (arith, in_free-prepend_n p first c), k);
      })
      | inr e ↦ rw e (
          let a = unclaimed-Sorted p first v first_once first_loose in
          unclaimed_twice (unclaimed F dec p first)
            (unclaimed F dec (unclaimed F dec p first).0 last) a
            (unclaimed-Sorted (unclaimed F dec p first).0 last a.inv last_once
              (last_still_loose a)))
    ]
