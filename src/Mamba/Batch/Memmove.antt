-- ===== src/Mamba/Batch/Memmove.antt =====
-- What batch_memcpy_kernel of src/mamba_utils_guarded.py leaves in memory.
use qwen3_8_flash_dgx_auto_r.Common.{
  ℕ, zero, suc, ◌+◌, ◌-◌, ◌≤◌, ◌<◌, ◌≡◌, ◌⊎◌, ap, ◌∙◌, ◌&&◌, List, [], ◌∷◌, ltb, leb, ◌==◌,
  if◌then◌else◌, has, inl, inr, Bool-cases, arith,
}
use qwen3_8_flash_dgx_auto_r.Mamba.Copy.{Copy}
use qwen3_8_flash_dgx_auto_r.Mamba.Batch.{
  Memory, store_block, store_lane, store_lanes, is_left_overlap, block_loop, batch_memcpy_kernel,
}

-- memmove: the destination gets what the source had, and nothing else changes.
pub moved : Copy → Memory → Memory
moved c mem a = if leb c.dst a && ltb a (c.dst + c.size) then mem (c.src + (a - c.dst)) else mem a

-- The first `n` bytes moved.
abbrev moved_to : Copy → ℕ → Memory → Memory
moved_to c n mem a =
    if leb c.dst a && ltb a (c.dst + n) && ltb a (c.dst + c.size)
    then mem (c.src + (a - c.dst))
    else mem a

module _ (c : Copy) (mem : Memory) where
  -- A block with a barrier, for a destination below the source.
  store_block-moved :
      (block i : ℕ) (m : Memory)
      → c.dst ≤ c.src
      → ((a : ℕ) → m a ≡ moved_to c i mem a)
      → (a : ℕ) → store_block block c i m a ≡ moved_to c (i + block) mem a
  unfolding store_block
  store_block-moved block i m left before a =
      ground (arith, left, before a, before (c.src + (a - c.dst)))

  -- Lanes in any order, for ranges apart from each other.
  module _ (apart : (c.src + c.size ≤ c.dst) ⊎ (c.dst + c.size ≤ c.src)) where
    store_lane-source :
        (i lane : ℕ) (m : Memory) (o : ℕ)
        → o < c.size
        → store_lane c i lane m (c.src + o) ≡ m (c.src + o)
    unfolding store_lane
    store_lane-source i lane m o lt = elim apart [
      | inl before ↦ ground (arith, before, lt)
      | inr after ↦ ground (arith, after, lt)
    ]

    store_lane-at :
        (i lane : ℕ) (m : Memory) (a : ℕ)
        → ((o : ℕ) → o < c.size → m (c.src + o) ≡ mem (c.src + o))
        → store_lane c i lane m a ≡ (
            if leb (c.dst + i) a && ltb a (c.dst + c.size) && ((a - (c.dst + i)) == lane)
            then mem (c.src + (a - c.dst))
            else m a)
    unfolding store_lane
    store_lane-at i lane m a kept =
        elim (Bool-cases (ltb (i + lane) c.size && (a == (c.dst + i + lane)))) [
          | inl hit ↦
              let here : c.src + i + lane ≡ c.src + (a - c.dst) = ground (arith, hit) in
              let from : m (c.src + (a - c.dst)) ≡ mem (c.src + (a - c.dst)) =
                kept (a - c.dst) (ground (arith, hit)) in
              rw hit (ap m here ∙ ground (arith, hit, from))
          | inr miss ↦ rw miss (ground (arith, miss))
        ]

    store_lanes-moved :
        (i : ℕ) (lanes : List ℕ) (m : Memory)
        → ((o : ℕ) → o < c.size → m (c.src + o) ≡ mem (c.src + o))
        → (a : ℕ)
        → store_lanes c i lanes m a ≡ (
            if leb (c.dst + i) a && ltb a (c.dst + c.size) && has (a - (c.dst + i)) lanes
            then mem (c.src + (a - c.dst))
            else m a)
    unfolding store_lanes store_lane
    store_lanes-moved i [] m kept a = ground arith
    store_lanes-moved i (lane ∷ lanes) m kept a =
        let next = store_lane c i lane m in
        let ih =
          store_lanes-moved i lanes next (λ o lt. store_lane-source i lane m o lt ∙ kept o lt) a in
        ground (arith, ih, store_lane-at i lane m a kept)

    store_lanes-block :
        (block i : ℕ) (lanes : List ℕ) (m : Memory)
        → ((lane : ℕ) → has lane lanes ≡ ltb lane block)
        → ((a : ℕ) → m a ≡ moved_to c i mem a)
        → (a : ℕ) → store_lanes c i lanes m a ≡ moved_to c (i + block) mem a
    store_lanes-block block i lanes m all before a =
        let kept : (o : ℕ) → o < c.size → m (c.src + o) ≡ mem (c.src + o) = λ o lt. elim apart [
          | inl below ↦ ground (arith, before (c.src + o), below, lt)
          | inr above ↦ ground (arith, before (c.src + o), above, lt)
        ] in
        ground (arith, store_lanes-moved i lanes m kept a, all (a - (c.dst + i)), before a)

module _ (block : ℕ) (order : ℕ → List ℕ) (c : Copy) (mem : Memory) where
  -- Both ways to store a block.
  stored : ℕ → Memory → Memory
  unfolding is_left_overlap
  stored i m = if is_left_overlap c then store_block block c i m else store_lanes c i (order i) m

  stored-moved :
      (i : ℕ) (m : Memory)
      → ((lane : ℕ) → has lane (order i) ≡ ltb lane block)
      → (c.dst < c.src) ⊎ (c.src + c.size ≤ c.dst)
      → ((a : ℕ) → m a ≡ moved_to c i mem a)
      → (a : ℕ) → stored i m a ≡ moved_to c (i + block) mem a
  unfolding stored is_left_overlap
  stored-moved i m all safe before a = elim (Bool-cases (is_left_overlap c)) [
    | inl e ↦ rw e (store_block-moved c mem block i m (ground (arith, e)) before a)
    | inr e ↦
        let apart : (c.src + c.size ≤ c.dst) ⊎ (c.dst + c.size ≤ c.src) = elim safe [
          | inl left ↦ inr (ground (arith, e, left))
          | inr right ↦ inl right
        ] in
        rw e (store_lanes-block c mem apart block i (order i) m all before a)
  ]

  block_loop-moved :
      (fuel i : ℕ) (m : Memory)
      → 0 < block
      → ((i lane : ℕ) → has lane (order i) ≡ ltb lane block)
      → (c.dst < c.src) ⊎ (c.src + c.size ≤ c.dst)
      → c.size ≤ i + fuel
      → ((a : ℕ) → m a ≡ moved_to c i mem a)
      → (a : ℕ) → block_loop block order c fuel i m a ≡ moved c mem a
  unfolding block_loop moved stored
  block_loop-moved zero i m some all safe enough before a = ground (arith, before a, enough)
  block_loop-moved (suc fuel) i m some all safe enough before a = elim (Bool-cases (ltb i c.size)) [
    | inr done ↦ rw done (ground (arith, before a, done))
    | inl more ↦ rw more (
        block_loop-moved fuel (i + block) (stored i m) some all safe (omega (arith, enough, some))
          (stored-moved i m (all i) safe before) a)
  ]

  -- The kernel is memmove, for a positive block size and lanes in any order that has each lane of a
  -- block, when the destination is below the source or the source ends before it.
  pub batch_memcpy_kernel-moved :
      0 < block
      → ((i lane : ℕ) → has lane (order i) ≡ ltb lane block)
      → (c.dst < c.src) ⊎ (c.src + c.size ≤ c.dst)
      → (a : ℕ) → batch_memcpy_kernel block order c mem a ≡ moved c mem a
  unfolding batch_memcpy_kernel
  batch_memcpy_kernel-moved some all safe a =
      block_loop-moved c.size 0 mem some all safe (omega arith) (λ b. ground arith) a
