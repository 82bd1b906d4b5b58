-- ===== src/Pin/Examples.antt =====
-- Tests of the pin of src/patch_never_evict.py, on a pool of eight blocks.
use qwen3_8_flash_dgx_auto_r.Common.{
  ℕ, ◌+◌, ◌*◌, ◌/◌, ◌≡◌, refl, true, false, [], ◌∷◌, some, arith, max, length, elem, distinct,
  same_set, lookup, ℕ_discrete,
}
use qwen3_8_flash_dgx_auto_r.Pin.{
  BlockPool, list_queue, acquire_pin, claim_hash, replace_pin, rehome, rehome_block, unclaimed,
  free_blocks, touch, set_pinned_hashes, drop_pin,
}
use qwen3_8_flash_dgx_auto_r.Pin.Invariant.{Inv, IsLoose}
use qwen3_8_flash_dgx_auto_r.Pin.Freeing.{Freed, free_blocks-Freed}
use qwen3_8_flash_dgx_auto_r.Pin.Loan.{}
use qwen3_8_flash_dgx_auto_r.Pin.Replace.{SameBlocks, set_pinned_hashes-replaces}

-- Block 1 is pinned, blocks 3 and 4 are free, the others are in use; block `b` has the hash 100 + b.
abbrev pool : BlockPool list_queue ℕ
pool = record {
  num_gpu_blocks = 8;
  blocks = λ b. record { block_hash = some (b + 100); ref_cnt = 0; is_null = false };
  free_block_queue = 3 ∷ 4 ∷ [];
  pinned_hashes = 101 ∷ 102 ∷ [];
  pin_cap = 2;
  pin = 1 ∷ [];
  pinned_by_hash = (101, 1) ∷ [];
  pinned_ids = 1 ∷ [];
  pin_cap_warned = false;
}

only_one : (b : ℕ) → elem ℕ_discrete b (1 ∷ []) ≡ true → b ≡ 1
unfolding elem
only_one b h = ground arith

pool-Inv : Inv list_queue ℕ_discrete pool
unfolding elem lookup ℕ_discrete distinct
pool-Inv = record {
  bounded = omega arith;
  once = refl;
  ids = λ b. refl;
  held = λ b h. rw (only_one b h) (101, refl, refl, refl);
  apart = λ b h. rw (only_one b h);
}

runs : Unit {0}
unfolding elem lookup distinct same_set acquire_pin claim_hash unclaimed free_blocks touch
    set_pinned_hashes replace_pin rehome rehome_block drop_pin ℕ_discrete
runs = tt

-- Block 2 carries a pinned hash with no holder; block 5 carries none.
acquire_pin_2 : (acquire_pin list_queue ℕ_discrete pool 2).0.pin ≡ 1 ∷ 2 ∷ []
unfolding runs
acquire_pin_2 = refl

free_blocks_2_5 : (free_blocks list_queue ℕ_discrete pool [] (2 ∷ 5 ∷ [])).1 ≡ 5 ∷ []
unfolding runs
free_blocks_2_5 = refl

outside : (c : ℕ) → elem ℕ_discrete c (2 ∷ 5 ∷ []) ≡ true → IsLoose list_queue ℕ_discrete pool c
unfolding elem
outside c h = (ground arith, ground arith)

free_blocks-Freed_example :
    Freed list_queue ℕ_discrete pool []
      (2 ∷ 5 ∷ [])
      (free_blocks list_queue ℕ_discrete pool [] (2 ∷ 5 ∷ []))
unfolding runs
free_blocks-Freed_example =
    free_blocks-Freed list_queue ℕ_discrete pool [] (2 ∷ 5 ∷ []) pool-Inv refl refl (λ c h. cc)
      (λ c h. cc) outside

-- The fraction is a number of quarters.
abbrev quarters : ℕ → ℕ → ℕ
quarters n f = n * f / 4

set_pinned_hashes-replaces_example :
    let r = set_pinned_hashes list_queue ℕ_discrete quarters pool (102 ∷ []) 1 in
    Inv list_queue ℕ_discrete r.0
    × ((key : ℕ) → elem ℕ_discrete key r.0.pinned_hashes ≡ elem ℕ_discrete key (102 ∷ []))
    × (r.0.pin_cap ≡ max 1 (quarters 8 1))
    × (r.1 ≡ length r.0.pinned_by_hash)
    × SameBlocks list_queue ℕ_discrete pool r.0
set_pinned_hashes-replaces_example =
    set_pinned_hashes-replaces list_queue ℕ_discrete quarters pool (102 ∷ []) 1 pool-Inv

set_pinned_hashes_102 :
    (set_pinned_hashes list_queue ℕ_discrete quarters pool (102 ∷ []) 1).0.free_block_queue
    ≡ 3 ∷ 4 ∷ 1 ∷ []
unfolding runs
set_pinned_hashes_102 = refl
