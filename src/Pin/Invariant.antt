-- ===== src/Pin/Invariant.antt =====
-- The invariant of the pin of src/patch_never_evict.py, kept by _acquire_pin, free_blocks and touch.
use qwen3_8_flash_dgx_auto_r.Common.{
  ℕ, ◌≤◌, ◌<◌, ◌≡◌, refl, inl, inr, Bool, true, false, [], ◌∷◌, Option, none, some, arith, leb,
  ◌==◌, ==_iff, length, elem, distinct, lookup, set, elem-append, elem-add,
  distinct-append_singleton, lookup-set, length-set_new, Bool-cases, Option-cases, ℕ_discrete,
}
use qwen3_8_flash_dgx_auto_r.Pin.{FreeQueue, BlockPool, enqueue_pin, claim_hash, acquire_pin}

module _ (F : FreeQueue) {K : Type 0} (dec : Discrete K) where
  open F use {Queue, to_list, append, prepend_n, to_list-append, to_list-prepend_n}

  abbrev pub in_pin : BlockPool F K → ℕ → Bool
  in_pin p b = elem ℕ_discrete b (to_list p.pin)

  abbrev pub in_free : BlockPool F K → ℕ → Bool
  in_free p b = elem ℕ_discrete b (to_list p.free_block_queue)

  -- The block carries a pinned hash, and the reservation of that hash names the block.
  abbrev pub Holds : BlockPool F K → ℕ → Type 0
  Holds p b =
      (key : K) × ((p.blocks b).block_hash ≡ some key)
      × (elem dec key p.pinned_hashes ≡ true)
      × (lookup dec key p.pinned_by_hash ≡ some b)

  pub record Inv (p : BlockPool F K) : Type 0 where
    pub bounded : length p.pinned_by_hash ≤ p.pin_cap
    pub once : distinct ℕ_discrete (to_list p.pin) ≡ true
    pub ids : (b : ℕ) → elem ℕ_discrete b p.pinned_ids ≡ in_pin p b
    pub held : (b : ℕ) → in_pin p b ≡ true → Holds p b
    pub apart : (b : ℕ) → in_pin p b ≡ true → in_free p b ≡ false

  -- A block in neither queue: in use, or just handed to free_blocks.
  abbrev pub IsLoose : BlockPool F K → ℕ → Type 0
  IsLoose p b = (in_pin p b ≡ false) × (in_free p b ≡ false)

  pub in_pin-append :
      (q : Queue) (b c : ℕ)
      → elem ℕ_discrete c (to_list (append q b))
        ≡ elim (ℕ_discrete c b) [ yes _ ↦ true | no _ ↦ elem ℕ_discrete c (to_list q) ]
  unfolding elem
  in_pin-append q b c =
      rw (to_list-append q b) (ground (arith, elem-append ℕ_discrete c (to_list q) (b ∷ [])))

  enqueue_pin-Inv :
      (p : BlockPool F K) (b : ℕ) → Inv p → IsLoose p b → Holds p b → Inv (enqueue_pin F dec p b)
  unfolding enqueue_pin
  enqueue_pin-Inv p b v loose holds = record {
    bounded = v.bounded;
    once =
        rw (to_list-append p.pin b)
          (distinct-append_singleton ℕ_discrete b (to_list p.pin) v.once loose.0);
    ids =
        λ c. ground (arith, in_pin-append p.pin b c, elem-add ℕ_discrete c b p.pinned_ids, v.ids c);
    held = λ c h. elim (ℕ_discrete c b) [
      | yes e ↦ rw e holds
      | no n ↦ v.held c (ground (arith, in_pin-append p.pin b c))
    ];
    apart = λ c h. ground (arith, in_pin-append p.pin b c, v.apart c);
  }

  warned-Inv : (p : BlockPool F K) → Inv p → Inv (record p { pin_cap_warned = true })
  warned-Inv p v = record {
    bounded = v.bounded;
    once = v.once;
    ids = v.ids;
    held = v.held;
    apart = v.apart;
  }

  reserve-Inv :
      (p : BlockPool F K) (key : K) (b : ℕ)
      → Inv p
      → lookup dec key p.pinned_by_hash ≡ none
      → length p.pinned_by_hash < p.pin_cap
      → Inv (record p { pinned_by_hash = set dec key b p.pinned_by_hash })
  reserve-Inv p key b v fresh room = record {
    bounded = omega (arith, length-set_new dec key b p.pinned_by_hash fresh);
    once = v.once;
    ids = v.ids;
    held = λ c h.
        let (k, hash, pinned, holder) = v.held c h in
        (k, hash, pinned, ground (arith, lookup-set dec k key b p.pinned_by_hash));
    apart = v.apart;
  }

  claim_hash-Inv :
      (p : BlockPool F K) (key : K) (b : ℕ) (holder : Option ℕ)
      → Inv p
      → IsLoose p b
      → (p.blocks b).block_hash ≡ some key
      → elem dec key p.pinned_hashes ≡ true
      → lookup dec key p.pinned_by_hash ≡ holder
      → Inv (claim_hash F dec p key b holder).0
  unfolding claim_hash
  claim_hash-Inv p key b none v loose hash pinned free =
      elim (Bool-cases (leb p.pin_cap (length p.pinned_by_hash))) [
        | inl full ↦ rw full (warned-Inv p v)
        | inr room ↦ rw room (
            enqueue_pin-Inv _ b (reserve-Inv p key b v free (ground arith)) loose
              (key, hash, pinned, ground (arith, lookup-set dec key key b p.pinned_by_hash)))
      ]
  claim_hash-Inv p key b (some holder) v loose hash pinned taken = elim (Bool-cases (holder == b)) [
    | inl same ↦
        rw same (enqueue_pin-Inv p b v loose (key, hash, pinned, ground (arith, ==_iff holder b)))
    | inr other ↦ rw other v
  ]

  -- _acquire_pin keeps the invariant when the block is in neither queue.
  pub acquire_pin-Inv :
      (p : BlockPool F K) (b : ℕ) → Inv p → IsLoose p b → Inv (acquire_pin F dec p b).0
  unfolding acquire_pin
  acquire_pin-Inv p b v loose = elim (Option-cases (p.blocks b).block_hash) [
    | inl e ↦ rw (e, acquire_pin) v
    | inr (key, e) ↦ elim (Bool-cases (elem dec key p.pinned_hashes)) [
      | inl m ↦ rw (e, acquire_pin, m) (claim_hash-Inv p key b _ v loose e m refl)
      | inr m ↦ rw (e, acquire_pin, m) v
    ]
  ]
