-- ===== src/Scheduler/Arming.antt =====
-- _arm_never_evict_pin of src/patch_never_evict.py: which hashes are pinned, and when.
use qwen3_8_flash_dgx_auto_r.Common.{
  ℕ, zero, suc, ◌+◌, ◌*◌, ◌/◌, ◌<◌, ◌≤◌, ◌≡◌, refl, ap, ◌∙◌, ◌↔◌, ◌⊎◌, inl, inr, min, true, List,
  [], ◌∷◌, some, arith, length, get_elem?, get_elem?-take, get_elem?-lt, All, elem, add, elem-add,
  Bool-cases,
}
use qwen3_8_flash_dgx_auto_r.Scheduler.{
  Group, Request, Hashing, is_pinnable, group_hashes, full_block_hashes, add_keys, collect,
  prompt_hashes,
}

abbrev pub HavePositiveSizes : List Group → Type 0
HavePositiveSizes = All (λ g. 0 < g.block_size)

module _ {H K : Type 0} (dec : Discrete K) (h : Hashing H K) where
  -- A key that one of the listed hashes gives.
  abbrev FromList : ℕ → List H → K → Type 0
  FromList gid xs k = (i : ℕ) × (x : H) × (get_elem? xs i ≡ some x) × (k ≡ h.with_group x gid)

  FromList-suc :
      {gid : ℕ} (x : H) (xs : List H) {k : K} → FromList gid xs k → FromList gid (x ∷ xs) k
  FromList-suc x xs (i, y, at, e) = (suc i, y, at, e)

  elem-add_self : (k : K) (hs : List K) → elem dec k (add dec k hs) ≡ true
  elem-add_self k hs = ground (arith, elem-add dec k k hs)

  elem-add_of_elem :
      (k j : K) (hs : List K) → elem dec k hs ≡ true → elem dec k (add dec j hs) ≡ true
  elem-add_of_elem k j hs m = ground (arith, elem-add dec k j hs)

  add_keys-keeps :
      (gid : ℕ) (xs : List H) (hs : List K) (k : K)
      → elem dec k hs ≡ true
      → elem dec k (add_keys dec h gid xs hs) ≡ true
  unfolding add_keys
  add_keys-keeps gid [] hs k m = m
  add_keys-keeps gid (x ∷ xs) hs k m =
      add_keys-keeps gid xs _ k (elem-add_of_elem k (h.with_group x gid) hs m)

  add_keys-adds :
      (gid : ℕ) (xs : List H) (hs : List K) (i : ℕ) (x : H)
      → get_elem? xs i ≡ some x
      → elem dec (h.with_group x gid) (add_keys dec h gid xs hs) ≡ true
  unfolding add_keys
  add_keys-adds gid [] hs i x at = cc
  add_keys-adds gid (y ∷ xs) hs zero x at =
      add_keys-keeps gid xs _ _ (ground (arith, elem-add_self (h.with_group x gid) hs))
  add_keys-adds gid (y ∷ xs) hs (suc i) x at = add_keys-adds gid xs _ i x at

  add_keys-only :
      (gid : ℕ) (xs : List H) (hs : List K) (k : K)
      → elem dec k (add_keys dec h gid xs hs) ≡ true
      → (elem dec k hs ≡ true) ⊎ FromList gid xs k
  unfolding add_keys
  add_keys-only gid [] hs k m = inl m
  add_keys-only gid (x ∷ xs) hs k m = elim (add_keys-only gid xs _ k m) [
    | inr f ↦ inr (FromList-suc x xs f)
    | inl a ↦ elim (dec k (h.with_group x gid)) [
      | yes e ↦ inr (0, x, refl, e)
      | no n ↦ inl (ground (arith, elem-add dec k (h.with_group x gid) hs))
    ]
  ]

  -- The `i`-th block of `b` tokens lies within the first `n` tokens.
  block_within : (i n b : ℕ) → 0 < b → i < n / b → (i + 1) * b ≤ n
  block_within i n b pos lt = grind arith

  within_block : (i n b : ℕ) → 0 < b → (i + 1) * b ≤ n → i < n / b
  within_block i n b pos le = grind arith

  module _ (r : Request H) (g : Group) (pos : 0 < g.block_size) where
    full_blocks_sound :
        (i : ℕ) (x : H)
        → get_elem? (full_block_hashes dec h r g) i ≡ some x
        → (get_elem? (group_hashes dec h r g) i ≡ some x)
          × ((i + 1) * g.block_size ≤ r.num_prompt_tokens)
    unfolding full_block_hashes
    full_blocks_sound i x at = ground (
      arith,
      get_elem?-take (min (length (group_hashes dec h r g)) (r.num_prompt_tokens / g.block_size)) i
          (group_hashes dec h r g),
      block_within i r.num_prompt_tokens g.block_size pos,
    )

    full_blocks_complete :
        (i : ℕ) (x : H)
        → get_elem? (group_hashes dec h r g) i ≡ some x
        → (i + 1) * g.block_size ≤ r.num_prompt_tokens
        → get_elem? (full_block_hashes dec h r g) i ≡ some x
    unfolding full_block_hashes
    full_blocks_complete i x at le = ground (
      arith,
      get_elem?-take (min (length (group_hashes dec h r g)) (r.num_prompt_tokens / g.block_size)) i
          (group_hashes dec h r g),
      within_block i r.num_prompt_tokens g.block_size pos le,
      get_elem?-lt (group_hashes dec h r g) i at,
    )

  module _ (r : Request H) where
    -- The key of a full prompt block: block `i` of the pinnable group number `n`.
    abbrev pub IsPromptKey : ℕ → List Group → K → Type 0
    IsPromptKey gid gs k =
        (n : ℕ) × (g : Group) × (i : ℕ) × (x : H) × (get_elem? gs n ≡ some g)
        × (is_pinnable dec h g ≡ true)
        × (get_elem? (group_hashes dec h r g) i ≡ some x)
        × ((i + 1) * g.block_size ≤ r.num_prompt_tokens)
        × (k ≡ h.with_group x (gid + n))

    later_group :
        (gid : ℕ) (g : Group) (gs : List Group) {k : K}
        → IsPromptKey (gid + 1) gs k
        → IsPromptKey gid (g ∷ gs) k
    later_group gid g gs (n, g', i, x, at, ok, hash, le, e) =
        (suc n, g', i, x, at, ok, hash, le, e ∙ ap (h.with_group x) (omega arith))

    collect-keeps :
        (gid : ℕ) (gs : List Group) (hs : List K) (k : K)
        → elem dec k hs ≡ true
        → elem dec k (collect dec h r gid gs hs) ≡ true
    unfolding collect
    collect-keeps gid [] hs k m = m
    collect-keeps gid (g ∷ gs) hs k m =
        collect-keeps (gid + 1) gs _ k
          (ground (arith, add_keys-keeps gid (full_block_hashes dec h r g) hs k m))

    collect-only :
        (gid : ℕ) (gs : List Group) (hs : List K) (k : K)
        → HavePositiveSizes gs
        → elem dec k (collect dec h r gid gs hs) ≡ true
        → (elem dec k hs ≡ true) ⊎ IsPromptKey gid gs k
    unfolding collect
    collect-only gid [] hs k pos m = inl m
    collect-only gid (g ∷ gs) hs k pos m = elim (collect-only (gid + 1) gs _ k pos.1 m) [
      | inr f ↦ inr (later_group gid g gs f)
      | inl a ↦ elim (Bool-cases (is_pinnable dec h g)) [
        | inr no_pin ↦ inl (rw no_pin at a)
        | inl ok ↦ elim (add_keys-only gid (full_block_hashes dec h r g) hs k (rw ok at a)) [
          | inl m' ↦ inl m'
          | inr (i, x, at, e) ↦
              let (hash, le) = full_blocks_sound r g pos.0 i x at in
              inr (0, g, i, x, refl, ok, hash, le, e ∙ ap (h.with_group x) (omega arith))
        ]
      ]
    ]

    head_group :
        (gid : ℕ) (g : Group) (gs : List Group) (hs : List K) (i : ℕ) (x : H)
        → 0 < g.block_size
        → is_pinnable dec h g ≡ true
        → get_elem? (group_hashes dec h r g) i ≡ some x
        → (i + 1) * g.block_size ≤ r.num_prompt_tokens
        → elem dec (h.with_group x gid) (collect dec h r gid (g ∷ gs) hs) ≡ true
    unfolding collect
    head_group gid g gs hs i x pos ok hash le = rw ok (
        collect-keeps (gid + 1) gs _ _ (
          add_keys-adds gid (full_block_hashes dec h r g) hs i x
            (full_blocks_complete r g pos i x hash le)))

    collect-adds :
        (gid : ℕ) (gs : List Group) (hs : List K) (k : K)
        → HavePositiveSizes gs
        → IsPromptKey gid gs k
        → elem dec k (collect dec h r gid gs hs) ≡ true
    unfolding collect
    collect-adds gid [] hs k pos (n, g, i, x, at, ok, hash, le, e) = cc
    collect-adds gid (g ∷ gs) hs k pos (zero, g', i, x, at, ok, hash, le, e) =
        let same : g' ≡ g = cc in
        let there : k ≡ h.with_group x gid = e ∙ ap (h.with_group x) (omega arith) in
        rw there
          (head_group gid g gs hs i x pos.0 (rw same at ok) (rw same at hash) (rw same at le))
    collect-adds gid (g ∷ gs) hs k pos (suc n, g', i, x, at, ok, hash, le, e) =
        collect-adds (gid + 1) gs _ k pos.1
          (n, g', i, x, at, ok, hash, le, e ∙ ap (h.with_group x) (omega arith))

  -- For groups with positive block sizes, the hashes that a request pins are exactly those of the
  -- full blocks of its prompt, in each group that is prefix-cacheable and whose block size is a
  -- multiple of the hash block size.
  pub prompt_hashes_iff :
      (groups : List Group) (r : Request H) (k : K)
      → HavePositiveSizes groups
      → (elem dec k (prompt_hashes dec h groups r) ≡ true) ↔ IsPromptKey r 0 groups k
  unfolding prompt_hashes elem
  prompt_hashes_iff groups r k pos = (
    λ m. elim (collect-only r 0 groups [] k pos m) [ inl e ↦ cc e | inr f ↦ f ],
    collect-adds r 0 groups [] k pos,
  )
