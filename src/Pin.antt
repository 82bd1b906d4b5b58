-- ===== src/Pin.antt =====
-- The never-evict pin that src/patch_never_evict.py adds to vLLM's BlockPool. Blocks are named by
-- their block_id, so that a block in a queue and the block in the store are one object. The free
-- queue and the hash type are vLLM's and are parameters.
mod Queue
pub mod Invariant
pub mod Freeing
pub mod Loan
pub mod Rehome
pub mod Replace
mod Examples
pub use Queue.{FreeQueue, list_queue}
use qwen3_8_flash_dgx_auto_r.Common.{
  ℕ, ◌+◌, ◌-◌, Bool, true, false, not, ◌&&◌, List, [], ◌∷◌, ◌++◌, Option, none, some, is_none,
  is_empty, get_or, max, ltb, leb, ◌==◌, if◌then◌else◌, length, elem, add, discard, to_set,
  same_set, lookup, set, values, ℕ_discrete,
}

-- The fields of KVCacheBlock that the patch reads and writes.
pub record Block (K : Type 0) : Type 0 where
  pub block_hash : Option K
  pub ref_cnt : ℕ
  pub is_null : Bool

pub record BlockPool (F : FreeQueue) (K : Type 0) : Type 0 where
  pub num_gpu_blocks : ℕ
  pub blocks : ℕ → Block K
  pub free_block_queue : F.Queue
  pub pinned_hashes : List K
  pub pin_cap : ℕ
  pub pin : F.Queue
  -- hash -> block_id that holds the reservation
  pub pinned_by_hash : List (K × ℕ)
  pub pinned_ids : List ℕ
  pub pin_cap_warned : Bool

-- The local state of the loop of set_pinned_hashes.
pub record Rehoming (F : FreeQueue) (K : Type 0) : Type 0 where
  pub kept : List (K × ℕ)
  pub pin : F.Queue
  pub rehomed : List ℕ

module _ (F : FreeQueue) {K : Type 0} (dec : Discrete K) where
  open F use {Queue, append, append_n, prepend_n, remove, popleft_n, num_free_blocks}

  -- The end of _acquire_pin: the block goes into the pin queue.
  enqueue_pin : BlockPool F K → ℕ → BlockPool F K
  enqueue_pin p b = record p { pinned_ids = add ℕ_discrete b p.pinned_ids; pin = append p.pin b }

  -- The tests of _acquire_pin on the holder of a pinned hash.
  claim_hash : BlockPool F K → K → ℕ → Option ℕ → BlockPool F K × Bool
  unfolding enqueue_pin
  claim_hash p key b none =
      if leb p.pin_cap (length p.pinned_by_hash)
      then (record p { pin_cap_warned = true }, false)
      else (enqueue_pin (record p { pinned_by_hash = set dec key b p.pinned_by_hash }) b, true)
  claim_hash p key b (some holder) = if holder == b then (enqueue_pin p b, true) else (p, false)

  -- _acquire_pin
  pub acquire_pin : BlockPool F K → ℕ → BlockPool F K × Bool
  acquire_pin p b = elim (p.blocks b).block_hash [
    | none ↦ (p, false)
    | some key ↦ elim (elem dec key p.pinned_hashes) [
      | false ↦ (p, false)
      | true ↦ claim_hash p key b (lookup dec key p.pinned_by_hash)
    ]
  ]

  -- `[b for b in blocks if not self._acquire_pin(b)]`
  pub unclaimed : BlockPool F K → List ℕ → BlockPool F K × List ℕ
  unclaimed p [] = (p, [])
  unclaimed p (b ∷ bs) =
      let (p', pinned) = acquire_pin p b in
      let (p'', rest) = unclaimed p' bs in (p'', if pinned then rest else b ∷ rest)

  -- The end of free_blocks, up to the call of prepend_n; what is left of `blocks_to_evict_last` is
  -- handed back to the stock code.
  pub free_blocks : BlockPool F K → List ℕ → List ℕ → BlockPool F K × List ℕ
  free_blocks p first last =
      let (p', first') = unclaimed p first in
      let (p'', last') = unclaimed p' last in
      if is_empty p.pinned_hashes
      then (record p { free_block_queue = prepend_n p.free_block_queue first }, last)
      else (record p'' { free_block_queue = prepend_n p''.free_block_queue first' }, last')

  -- `block.ref_cnt += 1`
  retain : BlockPool F K → ℕ → BlockPool F K
  retain p b = record p {
    blocks = λ c.
        if c == b then record (p.blocks b) { ref_cnt = (p.blocks b).ref_cnt + 1 } else p.blocks c;
  }

  -- Out of the queue that holds the block.
  take_out : BlockPool F K → ℕ → BlockPool F K
  take_out p b =
      if elem ℕ_discrete b p.pinned_ids
      then record p { pinned_ids = discard ℕ_discrete b p.pinned_ids; pin = remove p.pin b }
      else record p { free_block_queue = remove p.free_block_queue b }

  -- The body of the loop of touch.
  pub touch : BlockPool F K → ℕ → BlockPool F K
  unfolding retain take_out
  touch p b =
      retain (if ((p.blocks b).ref_cnt == 0) && not (p.blocks b).is_null then take_out p b else p) b

  -- One round of the loop of set_pinned_hashes over the popped blocks.
  rehome_block : (ℕ → Block K) → List K → ℕ → Rehoming F K → ℕ → Rehoming F K
  rehome_block blocks hashes cap r b = elim (blocks b).block_hash [
    | none ↦ record r { rehomed = r.rehomed ++ b ∷ [] }
    | some key ↦
        if elem dec key hashes && is_none (lookup dec key r.kept) && ltb (length r.kept) cap
        then record r { kept = set dec key b r.kept; pin = append r.pin b }
        else record r { rehomed = r.rehomed ++ b ∷ [] }
  ]

  pub rehome : (ℕ → Block K) → List K → ℕ → Rehoming F K → List ℕ → Rehoming F K
  rehome blocks hashes cap r [] = r
  rehome blocks hashes cap r (b ∷ bs) =
      rehome blocks hashes cap (rehome_block blocks hashes cap r b) bs

  -- The part of set_pinned_hashes after the early return.
  replace_pin : BlockPool F K → List K → ℕ → BlockPool F K
  replace_pin p hashes cap =
      let (popped, rest) = popleft_n p.pin (num_free_blocks p.pin) in
      let r : Rehoming F K =
        rehome p.blocks hashes cap (record { kept = []; pin = rest; rehomed = [] }) popped in
      record p {
        pinned_hashes = hashes;
        pin_cap = cap;
        pin_cap_warned = false;
        free_block_queue = append_n p.free_block_queue r.rehomed;
        pin = r.pin;
        pinned_by_hash = r.kept;
        pinned_ids = to_set ℕ_discrete (values r.kept);
      }

  -- `max_fraction` is a float; `int_of n f` is `int(n * f)`.
  module _ {Fraction : Type 0} (int_of : ℕ → Fraction → ℕ) where
    pub set_pinned_hashes : BlockPool F K → List K → Fraction → BlockPool F K × ℕ
    set_pinned_hashes p hashes max_fraction =
        let cap = max 1 (int_of p.num_gpu_blocks max_fraction) in
        let p' = replace_pin p hashes cap in
        if same_set dec hashes p.pinned_hashes && (cap == p.pin_cap)
        then (p, length p.pinned_by_hash)
        else (p', length p'.pinned_by_hash)

    -- The start of reset_prefix_cache: the pool, and `num_used_blocks`.
    pub drop_pin : BlockPool F K → Fraction → BlockPool F K × ℕ
    drop_pin p zero_fraction =
        let p' = (set_pinned_hashes p [] zero_fraction).0 in
        (p', p'.num_gpu_blocks - num_free_blocks p'.free_block_queue)

  -- The loop of get_pin_stats over the reserved hashes.
  count_groups : (K → ℕ) → List (K × ℕ) → List (ℕ × ℕ) → List (ℕ × ℕ)
  count_groups group_id [] counts = counts
  count_groups group_id ((key, _) ∷ d) counts =
      let gid = group_id key in
      count_groups group_id d
        (set ℕ_discrete gid (get_or (lookup ℕ_discrete gid counts) 0 + 1) counts)

  pub get_pin_stats : (K → ℕ) → BlockPool F K → ℕ × ℕ × List (ℕ × ℕ)
  unfolding count_groups
  get_pin_stats group_id p =
      (length p.pinned_by_hash, num_free_blocks p.pin, count_groups group_id p.pinned_by_hash [])
