-- ===== src/Scheduler.antt =====
-- The scheduler's half of src/patch_never_evict.py: finding the marker in a prompt, and arming the pin
-- with the hashes of the prompt's full blocks. The hash functions and the conversion to coarser
-- blocks are vLLM's and are parameters; so is the rounding of `int(n * fraction)`.
mod Subseq
mod Arming
mod Rearm
mod Examples
use qwen3_8_flash_dgx_auto_r.Common.{
  ℕ, zero, suc, ◌+◌, ◌-◌, ◌*◌, ◌/◌, ◌%◌, min, Bool, true, false, not, ◌&&◌, ◌||◌, List, [], ◌∷◌,
  ◌++◌, Option, none, some, ltb, ◌==◌, if◌then◌else◌, is_empty, length, take, drop, add, same_set,
  lookup, get_or, ℕ_discrete,
}
use qwen3_8_flash_dgx_auto_r.Pin.{FreeQueue, BlockPool, set_pinned_hashes, drop_pin}

-- `xs.index(x)`, where ValueError is `none`.
pub index : ℕ → List ℕ → Option ℕ
index x [] = none
index x (y ∷ ys) =
    if y == x then some 0 else elim (index x ys) [ none ↦ none | some j ↦ some (suc j) ]

-- `xs.index(x, start)`
pub index_from : ℕ → List ℕ → ℕ → Option ℕ
unfolding index
index_from x xs start = elim (index x (drop start xs)) [ none ↦ none | some j ↦ some (start + j) ]

pub list_eq : List ℕ → List ℕ → Bool
list_eq [] [] = true
list_eq [] (y ∷ ys) = false
list_eq (x ∷ xs) [] = false
list_eq (x ∷ xs) (y ∷ ys) = x == y && list_eq xs ys

-- The `while True` of _contains_subseq from index `i`; `none` means that the fuel ran out.
subseq_loop : ℕ → List ℕ → List ℕ → ℕ → ℕ → Option Bool
unfolding index_from list_eq
subseq_loop zero haystack needle first i = none
subseq_loop (suc fuel) haystack needle first i = elim (index_from first haystack i) [
  | none ↦ some false
  | some j ↦ elim (list_eq (take (length needle) (drop j haystack)) needle) [
    | true ↦ some true
    | false ↦ subseq_loop fuel haystack needle first (j + 1)
  ]
]

-- _contains_subseq
pub contains_subseq : List ℕ → List ℕ → Option Bool
unfolding subseq_loop
contains_subseq haystack [] = some false
contains_subseq haystack (first ∷ rest) =
    if ltb (length haystack) (length (first ∷ rest))
    then some false
    else subseq_loop (length haystack + 1) haystack (first ∷ rest) first 0

-- The needle that __init__ makes of the marker's token ids.
pub pin_needle : List ℕ → List ℕ
pin_needle ids = if ltb 2 (length ids) then take (length ids - 2) (drop 1 ids) else ids

-- The fields of a KV cache group's spec that arming reads.
pub record Group : Type 0 where
  pub block_size : ℕ
  pub prefix_cacheable : Bool

pub record Request (H : Type 0) : Type 0 where
  pub prompt_token_ids : List ℕ
  pub num_prompt_tokens : ℕ
  pub block_hashes : List H

-- vLLM's hashing: BlockHashListWithBlockSize and make_block_hash_with_group_id.
pub record Hashing (H K : Type 0) : Type 0 where
  pub hash_block_size : ℕ
  pub coarsen : List H → ℕ → ℕ → List H
  pub with_group : H → ℕ → K

pub record Scheduler (F : FreeQueue) (K : Type 0) : Type 0 where
  pub block_pool : BlockPool F K
  pub pin_needle_ids : List ℕ
  pub pin_last_hashes : Option (List K)

module _ {H K : Type 0} (dec : Discrete K) (h : Hashing H K) where
  -- The `continue` of the loop over the groups, negated.
  pub is_pinnable : Group → Bool
  is_pinnable g = g.prefix_cacheable && ((g.block_size % h.hash_block_size) == 0)

  pub group_hashes : Request H → Group → List H
  group_hashes r g =
      if g.block_size == h.hash_block_size
      then r.block_hashes
      else h.coarsen r.block_hashes h.hash_block_size g.block_size

  -- `for i in range(min(len(group_hashes), num_prompt_tokens // block_size))`
  pub full_block_hashes : Request H → Group → List H
  unfolding group_hashes
  full_block_hashes r g =
      take (min (length (group_hashes r g)) (r.num_prompt_tokens / g.block_size)) (group_hashes r g)

  add_keys : ℕ → List H → List K → List K
  add_keys gid [] hashes = hashes
  add_keys gid (x ∷ xs) hashes = add_keys gid xs (add dec (h.with_group x gid) hashes)

  -- The loop `for gid, group in enumerate(groups)` of _arm_never_evict_pin.
  collect : Request H → ℕ → List Group → List K → List K
  unfolding is_pinnable full_block_hashes add_keys
  collect r gid [] hashes = hashes
  collect r gid (g ∷ gs) hashes =
      collect r (gid + 1) gs
        (if is_pinnable g then add_keys gid (full_block_hashes r g) hashes else hashes)

  pub prompt_hashes : List Group → Request H → List K
  unfolding collect
  prompt_hashes groups r = collect r 0 groups []

  module _ (F : FreeQueue) {Fraction : Type 0} (int_of : ℕ → Fraction → ℕ) (max_fraction : Fraction)
      (groups : List Group) where
    same_as_last : List K → Option (List K) → Bool
    same_as_last hashes none = false
    same_as_last hashes (some last) = same_set dec hashes last

    -- _arm_never_evict_pin
    pub arm_never_evict_pin : Scheduler F K → Request H → Scheduler F K
    unfolding same_as_last
    arm_never_evict_pin s r =
        let hashes = prompt_hashes groups r in
        if same_as_last hashes s.pin_last_hashes then s else record s {
          block_pool = (set_pinned_hashes F dec int_of s.block_pool hashes max_fraction).0;
          pin_last_hashes = some hashes;
        }

    -- What add_request does for the pin.
    pub add_request : Scheduler F K → Request H → Scheduler F K
    unfolding arm_never_evict_pin
    add_request s r =
        if not (is_empty s.pin_needle_ids)
          && get_or (contains_subseq r.prompt_token_ids s.pin_needle_ids) false
        then arm_never_evict_pin s r
        else s

    -- The pool's part of reset_prefix_cache; the scheduler's fields stay.
    pub reset_prefix_cache : Fraction → Scheduler F K → Scheduler F K
    reset_prefix_cache zero_fraction s = record s {
      block_pool = (drop_pin F dec int_of s.block_pool zero_fraction).0;
    }

-- `num_bytes` of log_never_evict_pin: the page sizes of the groups, weighted by the counts.
pub pinned_bytes : (ℕ → ℕ) → List (ℕ × ℕ) → ℕ
pinned_bytes page_size [] = 0
pinned_bytes page_size ((gid, count) ∷ per_group) =
    count * page_size gid + pinned_bytes page_size per_group
