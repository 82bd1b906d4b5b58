-- ===== src/Pin/Rehome.antt =====
-- set_pinned_hashes of src/patch_never_evict.py: the old pin is sorted into the new one and the free
-- queue.
use qwen3_8_flash_dgx_auto_r.Common.{
  ℕ, ◌+◌, ◌≤◌, ◌<◌, ◌≡◌, ap, inl, inr, Bool, true, false, ◌&&◌, ◌||◌, List, [], ◌∷◌, ◌++◌, none,
  some, arith, ltb, is_none, length, elem, distinct, lookup, set, values, elem-append,
  distinct-append_singleton, lookup-set, length-set_new, values-set_new, length-append, Bool-cases,
  Option-cases, ℕ_discrete,
}
use qwen3_8_flash_dgx_auto_r.Pin.{FreeQueue, Block, Rehoming, rehome_block, rehome}
use qwen3_8_flash_dgx_auto_r.Pin.Invariant.{in_pin-append}

module _ (F : FreeQueue) {K : Type 0} (dec : Discrete K) where
  open F use {Queue, to_list, append, to_list-append}

  abbrev pub in_list : ℕ → List ℕ → Bool
  in_list c bs = elem ℕ_discrete c bs

  module _ (blocks : ℕ → Block K) (hashes : List K) (cap : ℕ) where
    -- The loop's invariant; `bs` is what is left to sort.
    pub record Loop (r : Rehoming F K) (bs : List ℕ) : Type 0 where
      pub bounded : length r.kept ≤ cap
      pub once : distinct ℕ_discrete (to_list r.pin) ≡ true
      pub left_once : distinct ℕ_discrete bs ≡ true
      pub counted : length r.kept ≡ length (to_list r.pin)
      pub ids : (c : ℕ) → in_list c (values r.kept) ≡ in_list c (to_list r.pin)
      pub held :
          (c : ℕ)
          → in_list c (to_list r.pin) ≡ true
          → (key : K) × ((blocks c).block_hash ≡ some key)
            × (elem dec key hashes ≡ true)
            × (lookup dec key r.kept ≡ some c)
      pub left : (c : ℕ) → in_list c bs ≡ true → in_list c (to_list r.pin) ≡ false
      pub apart :
          (c : ℕ)
          → in_list c r.rehomed ≡ true
          → (in_list c (to_list r.pin) ≡ false) × (in_list c bs ≡ false)

    give_up :
        (r : Rehoming F K) (b : ℕ) (bs : List ℕ)
        → Loop r (b ∷ bs)
        → Loop (record r { rehomed = r.rehomed ++ b ∷ [] }) bs
    unfolding elem distinct
    give_up r b bs v = record {
      bounded = v.bounded;
      once = v.once;
      left_once = ground (arith, v.left_once);
      counted = v.counted;
      ids = v.ids;
      held = v.held;
      left = λ c h. ground (arith, v.left c);
      apart = λ c h.
          ground
            (arith, v.left_once, v.apart c, v.left c, elem-append ℕ_discrete c r.rehomed (b ∷ []));
    }

    keep :
        (r : Rehoming F K) (b : ℕ) (bs : List ℕ) (key : K)
        → Loop r (b ∷ bs)
        → (blocks b).block_hash ≡ some key
        → elem dec key hashes ≡ true
        → lookup dec key r.kept ≡ none
        → length r.kept < cap
        → Loop (record r { kept = set dec key b r.kept; pin = append r.pin b }) bs
    unfolding elem distinct
    keep r b bs key v hash m fresh room = record {
      bounded = omega (arith, length-set_new dec key b r.kept fresh);
      once =
          rw (to_list-append r.pin b) (
            distinct-append_singleton ℕ_discrete b (to_list r.pin) v.once
              (v.left b (ground arith)));
      left_once = ground (arith, v.left_once);
      counted = omega (
        arith,
        v.counted,
        length-set_new dec key b r.kept fresh,
        ap length (to_list-append r.pin b),
        length-append (to_list r.pin) (b ∷ []),
      );
      ids = λ c. ground (
        arith,
        v.ids c,
        in_pin-append F dec r.pin b c,
        values-set_new dec key b r.kept fresh,
        elem-append ℕ_discrete c (values r.kept) (b ∷ []),
      );
      held = λ c h. elim (ℕ_discrete c b) [
        | yes e ↦ rw e (key, hash, m, ground (arith, lookup-set dec key key b r.kept))
        | no n ↦
            let (k, hash_c, m_c, holder) =
              v.held c (ground (arith, in_pin-append F dec r.pin b c)) in
            (k, hash_c, m_c, ground (arith, lookup-set dec k key b r.kept))
      ];
      left = λ c h. ground (arith, in_pin-append F dec r.pin b c, v.left c, v.left_once);
      apart = λ c h. ground (arith, in_pin-append F dec r.pin b c, v.apart c);
    }

    rehome_block-Loop :
        (r : Rehoming F K) (b : ℕ) (bs : List ℕ)
        → Loop r (b ∷ bs)
        → Loop (rehome_block F dec blocks hashes cap r b) bs
    unfolding rehome_block
    rehome_block-Loop r b bs v = elim (Option-cases (blocks b).block_hash) [
      | inl e ↦ rw (e, rehome_block) (give_up r b bs v)
      | inr (key, e) ↦
          elim (Bool-cases
            (elem dec key hashes && is_none (lookup dec key r.kept) && ltb (length r.kept) cap)) [
              | inl t ↦
                  rw (e, rehome_block, t)
                    (keep r b bs key v e (ground arith) (ground arith) (ground arith))
              | inr t ↦ rw (e, rehome_block, t) (give_up r b bs v)
            ]
    ]

    pub rehome-Loop :
        (r : Rehoming F K) (bs : List ℕ) → Loop r bs → Loop (rehome F dec blocks hashes cap r bs) []
    unfolding rehome
    rehome-Loop r [] v = v
    rehome-Loop r (b ∷ bs) v =
        rehome-Loop (rehome_block F dec blocks hashes cap r b) bs (rehome_block-Loop r b bs v)

    -- The blocks that a state of the loop has sorted.
    abbrev pub sorted_in : Rehoming F K → ℕ → Bool
    sorted_in r c = in_list c (to_list r.pin) || in_list c r.rehomed

    abbrev pub sorted_count : Rehoming F K → ℕ
    sorted_count r = length (to_list r.pin) + length r.rehomed

    rehome_block-sorted :
        (r : Rehoming F K) (b c : ℕ)
        → sorted_in (rehome_block F dec blocks hashes cap r b) c
          ≡ elim (ℕ_discrete c b) [ yes _ ↦ true | no _ ↦ sorted_in r c ]
    unfolding rehome_block elem
    rehome_block-sorted r b c =
        ground (arith, in_pin-append F dec r.pin b c, elem-append ℕ_discrete c r.rehomed (b ∷ []))

    rehome_block-count :
        (r : Rehoming F K) (b : ℕ)
        → sorted_count (rehome_block F dec blocks hashes cap r b) ≡ sorted_count r + 1
    unfolding rehome_block
    rehome_block-count r b = ground (
      arith,
      ap length (to_list-append r.pin b),
      length-append (to_list r.pin) (b ∷ []),
      length-append r.rehomed (b ∷ []),
    )

    pub rehome-sorted :
        (r : Rehoming F K) (bs : List ℕ) (c : ℕ)
        → sorted_in (rehome F dec blocks hashes cap r bs) c ≡ (sorted_in r c || in_list c bs)
    unfolding rehome elem
    rehome-sorted r [] c = ground arith
    rehome-sorted r (b ∷ bs) c = ground (
      arith,
      rehome-sorted (rehome_block F dec blocks hashes cap r b) bs c,
      rehome_block-sorted r b c,
    )

    pub rehome-count :
        (r : Rehoming F K) (bs : List ℕ)
        → sorted_count (rehome F dec blocks hashes cap r bs) ≡ sorted_count r + length bs
    unfolding rehome
    rehome-count r [] = omega arith
    rehome-count r (b ∷ bs) =
        omega (
          arith,
          rehome-count (rehome_block F dec blocks hashes cap r b) bs,
          rehome_block-count r b,
        )
