-- ===== src/Scheduler/Examples.antt =====
-- Tests of the arming of src/patch_never_evict.py.
use qwen3_8_flash_dgx_auto_r.Common.{
  ℕ, ◌+◌, ◌*◌, ◌/◌, ◌≡◌, refl, ◌↔◌, ◌≢◌, add, Bool, true, false, List, [], ◌∷◌, none, some, arith,
  elem, distinct, ℕ_discrete,
}
use qwen3_8_flash_dgx_auto_r.Pin.{BlockPool, list_queue}
use qwen3_8_flash_dgx_auto_r.Pin.Invariant.{Inv}
use qwen3_8_flash_dgx_auto_r.Scheduler.{
  Group, Request, Hashing, Scheduler, contains_subseq, pin_needle, prompt_hashes,
  arm_never_evict_pin, reset_prefix_cache,
}
use qwen3_8_flash_dgx_auto_r.Scheduler.Subseq.{HasRun, contains_subseq_iff}
use qwen3_8_flash_dgx_auto_r.Scheduler.Arming.{IsPromptKey, prompt_hashes_iff}
use qwen3_8_flash_dgx_auto_r.Scheduler.Rearm.{IsSynced, arm-pins, arm-reset-arm_unpinned}

contains_3_4 : contains_subseq (1 ∷ 3 ∷ 3 ∷ 4 ∷ 5 ∷ []) (3 ∷ 4 ∷ []) ≡ some true
unfolding contains_subseq
contains_3_4 = refl

needle_of_four : pin_needle (7 ∷ 8 ∷ 9 ∷ 10 ∷ []) ≡ 8 ∷ 9 ∷ []
unfolding pin_needle
needle_of_four = refl

contains_subseq_iff_example :
    (found : Bool) × (contains_subseq (1 ∷ 3 ∷ 3 ∷ 4 ∷ []) (3 ∷ 4 ∷ []) ≡ some found)
    × ((found ≡ true)
        ↔ ((◌≢◌ {A = List ℕ} (3 ∷ 4 ∷ []) []) × HasRun (3 ∷ 4 ∷ []) (1 ∷ 3 ∷ 3 ∷ 4 ∷ [])))
contains_subseq_iff_example = contains_subseq_iff (1 ∷ 3 ∷ 3 ∷ 4 ∷ []) (3 ∷ 4 ∷ [])

-- Blocks of four tokens are hashed; the second group is not cached.
abbrev hashing : Hashing ℕ ℕ
hashing = record {
  hash_block_size = 4;
  coarsen = λ hs fine coarse. [];
  with_group = λ x gid. x * 10 + gid;
}

abbrev groups : List Group
groups =
    record { block_size = 4; prefix_cacheable = true }
    ∷ record { block_size = 4; prefix_cacheable = false }
    ∷ []

abbrev request : Request ℕ
request = record { prompt_token_ids = []; num_prompt_tokens = 10; block_hashes = 5 ∷ 6 ∷ 7 ∷ [] }

hashes_of_request : prompt_hashes ℕ_discrete hashing groups request ≡ 60 ∷ 50 ∷ []
unfolding prompt_hashes add elem ℕ_discrete
hashes_of_request = refl

prompt_hashes_iff_example :
    (elem ℕ_discrete 60 (prompt_hashes ℕ_discrete hashing groups request) ≡ true)
    ↔ IsPromptKey ℕ_discrete hashing request 0 groups 60
prompt_hashes_iff_example = prompt_hashes_iff ℕ_discrete hashing groups request 60 (omega arith)

abbrev empty_pool : BlockPool list_queue ℕ
empty_pool = record {
  num_gpu_blocks = 8;
  blocks = λ b. record { block_hash = none; ref_cnt = 0; is_null = false };
  free_block_queue = 1 ∷ 2 ∷ [];
  pinned_hashes = [];
  pin_cap = 0;
  pin = [];
  pinned_by_hash = [];
  pinned_ids = [];
  pin_cap_warned = false;
}

empty_pool-Inv : Inv list_queue ℕ_discrete empty_pool
unfolding elem distinct
empty_pool-Inv = record {
  bounded = omega arith;
  once = refl;
  ids = λ b. refl;
  held = λ b h. cc;
  apart = λ b h. cc;
}

abbrev scheduler : Scheduler list_queue ℕ
scheduler = record { block_pool = empty_pool; pin_needle_ids = []; pin_last_hashes = none }

abbrev quarters : ℕ → ℕ → ℕ
quarters n f = n * f / 4

abbrev armed : Scheduler list_queue ℕ
armed = arm_never_evict_pin ℕ_discrete hashing list_queue quarters 1 groups scheduler request

arm-pins_example :
    Inv list_queue ℕ_discrete armed.block_pool
    × IsSynced ℕ_discrete hashing list_queue quarters 1 groups armed
    × ((k : ℕ)
        → elem ℕ_discrete k armed.block_pool.pinned_hashes
          ≡ elem ℕ_discrete k (prompt_hashes ℕ_discrete hashing groups request))
arm-pins_example =
    arm-pins ℕ_discrete hashing list_queue quarters 1 groups scheduler request empty_pool-Inv
      (λ hs e k. cc)

arm-reset-arm_unpinned_example :
    elem ℕ_discrete 60
      (arm_never_evict_pin ℕ_discrete hashing list_queue quarters 1 groups
        (reset_prefix_cache ℕ_discrete hashing list_queue quarters 1 groups 0 armed)
        request).block_pool.pinned_hashes
    ≡ false
arm-reset-arm_unpinned_example =
    arm-reset-arm_unpinned ℕ_discrete hashing list_queue quarters 1 groups scheduler request 0
      empty_pool-Inv (λ hs e k. cc) 60
