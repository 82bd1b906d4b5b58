-- ===== src/Pin/Replace.antt =====
-- set_pinned_hashes and the start of reset_prefix_cache in src/patch_never_evict.py.
use qwen3_8_flash_dgx_auto_r.Common.{
  ℕ, ◌+◌, ◌-◌, ◌≡◌, refl, ◌∙◌, sym, ap, inl, inr, true, false, ◌&&◌, ◌||◌, List, [], max, arith,
  ◌==◌, length, elem, distinct, values, same_set, nil_of_no_elem, elem-append, elem-to_set,
  elem-same_set, length-append, take_all, drop_all, Bool-cases, ℕ_discrete,
}
use qwen3_8_flash_dgx_auto_r.Pin.{
  FreeQueue, BlockPool, Rehoming, rehome, replace_pin, set_pinned_hashes, drop_pin,
}
use qwen3_8_flash_dgx_auto_r.Pin.Invariant.{in_pin, in_free, Inv}
use qwen3_8_flash_dgx_auto_r.Pin.Rehome.{Loop, rehome-Loop, rehome-sorted, rehome-count}

module _ (F : FreeQueue) {K : Type 0} (dec : Discrete K) where
  open F use {
    Queue, to_list, append_n, popleft_n, num_free_blocks, to_list-append_n, popped,
    to_list-popleft_n, num_free_blocks_lem,
  }

  all_popped : (q : Queue) → (popleft_n q (num_free_blocks q)).0 ≡ to_list q
  all_popped q =
      rw (num_free_blocks_lem q)
        (popped q (length (to_list q)) (omega arith) ∙ take_all (to_list q))

  none_left : (q : Queue) → to_list (popleft_n q (num_free_blocks q)).1 ≡ []
  none_left q =
      rw (num_free_blocks_lem q)
        (to_list-popleft_n q (length (to_list q)) (omega arith) ∙ drop_all (to_list q))

  -- No block is lost, and none is made up: as many stay queued, and the same ones.
  abbrev pub SameBlocks : BlockPool F K → BlockPool F K → Type 0
  SameBlocks p q =
      ((c : ℕ) → (in_pin F dec q c || in_free F dec q c) ≡ (in_pin F dec p c || in_free F dec p c))
      × (length (to_list q.pin) + length (to_list q.free_block_queue)
          ≡ length (to_list p.pin) + length (to_list p.free_block_queue))

  module _ (p : BlockPool F K) (hashes : List K) (n : ℕ) where
    start : Rehoming F K
    start = record { kept = []; pin = (popleft_n p.pin (num_free_blocks p.pin)).1; rehomed = [] }

    end : Rehoming F K
    unfolding start
    end = rehome F dec p.blocks hashes n start (popleft_n p.pin (num_free_blocks p.pin)).0

    start-Loop :
        distinct ℕ_discrete (to_list p.pin) ≡ true
        → Loop F dec p.blocks hashes n start (to_list p.pin)
    unfolding start elem distinct
    start-Loop once = record {
      bounded = omega arith;
      once = rw (none_left p.pin);
      left_once = once;
      counted = rw (none_left p.pin);
      ids = λ c. rw (none_left p.pin);
      held = λ c h. cc (rw (none_left p.pin) at h);
      left = λ c h. rw (none_left p.pin);
      apart = λ c h. cc h;
    }

    end-Loop : Inv F dec p → Loop F dec p.blocks hashes n end []
    unfolding end
    end-Loop v =
        rehome-Loop F dec p.blocks hashes n start _ (rw (all_popped p.pin) (start-Loop v.once))

    in_free-replace_pin :
        (c : ℕ)
        → in_free F dec (replace_pin F dec p hashes n) c
          ≡ (in_free F dec p c || elem ℕ_discrete c end.rehomed)
    unfolding replace_pin end start
    in_free-replace_pin c =
        rw (to_list-append_n p.free_block_queue _)
          (elem-append ℕ_discrete c (to_list p.free_block_queue) _)

    sorted-end :
        (c : ℕ)
        → (in_pin F dec (replace_pin F dec p hashes n) c || elem ℕ_discrete c end.rehomed)
          ≡ in_pin F dec p c
    unfolding replace_pin end start elem
    sorted-end c = ground (
      arith,
      rehome-sorted F dec p.blocks hashes n start (popleft_n p.pin (num_free_blocks p.pin)).0 c,
      all_popped p.pin,
      none_left p.pin,
    )

    replace_pin-Inv : Inv F dec p → Inv F dec (replace_pin F dec p hashes n)
    unfolding replace_pin end start
    replace_pin-Inv v = record {
      bounded = (end-Loop v).bounded;
      once = (end-Loop v).once;
      ids = λ c. elem-to_set ℕ_discrete c (values end.kept) ∙ (end-Loop v).ids c;
      held = (end-Loop v).held;
      apart = λ c h.
          ground (arith, in_free-replace_pin c, sorted-end c, (end-Loop v).apart c, v.apart c);
    }

    replace_pin-SameBlocks : SameBlocks p (replace_pin F dec p hashes n)
    unfolding replace_pin end start
    replace_pin-SameBlocks = (
      λ c. ground (arith, in_free-replace_pin c, sorted-end c),
      omega (
        arith,
        rehome-count F dec p.blocks hashes n start (popleft_n p.pin (num_free_blocks p.pin)).0,
        ap length (all_popped p.pin),
        ap length (none_left p.pin),
        ap length (to_list-append_n p.free_block_queue end.rehomed),
        length-append (to_list p.free_block_queue) end.rehomed,
      ),
    )

    replace_pin-hashes : (replace_pin F dec p hashes n).pinned_hashes ≡ hashes
    unfolding replace_pin
    replace_pin-hashes = refl

    replace_pin-cap : (replace_pin F dec p hashes n).pin_cap ≡ n
    unfolding replace_pin
    replace_pin-cap = refl

  -- A pool that pins no hash has an empty pin queue.
  pin_is_empty :
      (p : BlockPool F K)
      → Inv F dec p
      → ((key : K) → elem dec key p.pinned_hashes ≡ false)
      → to_list p.pin ≡ []
  pin_is_empty p v nothing = nil_of_no_elem ℕ_discrete (to_list p.pin) λ c.
      elim (Bool-cases (in_pin F dec p c)) [
        | inl h ↦ let (key, _, m, _) = v.held c h in cc (nothing key)
        | inr h ↦ h
      ]

  module _ {Fraction : Type 0} (int_of : ℕ → Fraction → ℕ) where
    -- From a valid pool, set_pinned_hashes keeps the invariant, makes the new hashes the pinned set
    -- under the new cap, returns the number of reservations, and moves the queued blocks between
    -- the pin and the free queue with none lost.
    pub set_pinned_hashes-replaces :
        (p : BlockPool F K) (hashes : List K) (f : Fraction)
        → Inv F dec p
        → let r = set_pinned_hashes F dec int_of p hashes f in
          Inv F dec r.0
          × ((key : K) → elem dec key r.0.pinned_hashes ≡ elem dec key hashes)
          × (r.0.pin_cap ≡ max 1 (int_of p.num_gpu_blocks f))
          × (r.1 ≡ length r.0.pinned_by_hash)
          × SameBlocks p r.0
    unfolding set_pinned_hashes
    set_pinned_hashes-replaces p hashes f v =
        let n = max 1 (int_of p.num_gpu_blocks f) in
        elim (Bool-cases (same_set dec hashes p.pinned_hashes && (n == p.pin_cap))) [
          | inl e ↦ rw e (
            v,
            λ key. sym (elem-same_set dec key hashes p.pinned_hashes (ground arith)),
            ground arith,
            refl,
            (λ c. refl, refl),
          )
          | inr e ↦ rw e (
            replace_pin-Inv p hashes n v,
            λ key. ap (elem dec key) (replace_pin-hashes p hashes n),
            replace_pin-cap p hashes n,
            refl,
            replace_pin-SameBlocks p hashes n,
          )
        ]

    -- From a valid pool, the start of reset_prefix_cache empties the pin: every block that was held
    -- is in the free queue, so the pin alone no longer makes blocks count as used.
    pub drop_pin-frees :
        (p : BlockPool F K) (zero_fraction : Fraction)
        → Inv F dec p
        → let r = drop_pin F dec int_of p zero_fraction in
          (to_list r.0.pin ≡ [])
          × ((c : ℕ) → in_free F dec r.0 c ≡ (in_pin F dec p c || in_free F dec p c))
          × (r.1
              ≡ r.0.num_gpu_blocks - (length (to_list p.pin) + length (to_list p.free_block_queue)))
    unfolding drop_pin elem
    drop_pin-frees p zero_fraction v =
        let (inv, pinned, _, _, (same, count)) = set_pinned_hashes-replaces p [] zero_fraction v in
        let q = (set_pinned_hashes F dec int_of p [] zero_fraction).0 in
        let empty : to_list q.pin ≡ [] = pin_is_empty q inv pinned in
        (
          empty,
          λ c. ground (arith, same c, ap (elem ℕ_discrete c) empty),
          ap (◌-◌ q.num_gpu_blocks)
              (omega (arith, num_free_blocks_lem q.free_block_queue, count, ap length empty)),
        )

    -- Nothing is pinned after it.
    pub pinned-drop_pin :
        (p : BlockPool F K) (zero_fraction : Fraction)
        → Inv F dec p
        → (key : K) → elem dec key (drop_pin F dec int_of p zero_fraction).0.pinned_hashes ≡ false
    unfolding drop_pin elem
    pinned-drop_pin p zero_fraction v key = (set_pinned_hashes-replaces p [] zero_fraction v).1 key
