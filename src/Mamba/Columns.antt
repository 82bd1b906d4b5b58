-- ===== src/Mamba/Columns.antt =====
-- Which block columns hold a request's recurrent state: cleanup_mamba_state_idx, the loop of
-- preprocess_mamba on its fused path, and postprocess_mamba_all, of src/mamba_utils_guarded.py.
-- Request ids are numbers.
pub mod Stage
mod Examples
use qwen3_8_flash_dgx_auto_r.Common.{
  ℕ, zero, suc, ◌+◌, ◌-◌, ◌*◌, ◌/◌, Bool, true, false, not, ◌&&◌, List, [], ◌∷◌, ◌++◌, Option, none,
  some, get_or, ◌==◌, if◌then◌else◌, lookup, set, ℕ_discrete,
}
use qwen3_8_flash_dgx_auto_r.Common.Int.{ℤ, pos, negsuc, eq_ℤ, pred_ℤ}

-- mamba_state_idx
abbrev pub Columns : Type 0
Columns = List (ℕ × ℤ)

-- What preprocess_mamba stages for a request, with its entry of num_accepted_tokens_cpu.
pub record Staged : Type 0 where
  pub state_idx : ℤ
  pub src_col : ℤ
  pub token_bias : ℕ
  pub num_accepted : ℕ

-- `d.pop(key, None)`
pub pop : ℕ → Columns → Columns
pop k [] = []
pop k ((j, v) ∷ d) = let rest = pop k d in if k == j then rest else (j, v) ∷ rest

-- The loop of cleanup_mamba_state_idx.
pop_all : List ℕ → Columns → Columns
unfolding pop
pop_all [] d = d
pop_all (k ∷ ks) d = pop_all ks (pop k d)

-- cleanup_mamba_state_idx
pub cleanup_mamba_state_idx : List ℕ → List ℕ → List ℕ → Columns → Columns
unfolding pop_all
cleanup_mamba_state_idx finished preempted resumed d =
    pop_all (finished ++ (preempted ++ resumed)) d

-- `(num_computed_tokens - 1) // block_size`, which is -1 for no token.
pub seed_idx : ℕ → ℕ → ℤ
seed_idx block_size zero = negsuc 0
seed_idx block_size (suc n) = pos (n / block_size)

pub cdiv : ℕ → ℕ → ℕ
cdiv a b = (a + (b - 1)) / b

-- `num_blocks - 1 - num_speculative_blocks`
pub curr_idx : ℕ → ℕ → ℕ → ℤ
unfolding cdiv
curr_idx block_size num_speculative tokens =
    let num_blocks = cdiv tokens block_size + num_speculative in
    pred_ℤ (num_blocks - num_speculative)

-- The end of the loop's body, after `curr_state_idx`; a failed assertion is `none`.
unfoldable pub stage : ℤ → ℤ → ℕ → Option Staged
stage prev curr accepted =
    if not (eq_ℤ prev (negsuc 0)) && not (eq_ℤ prev curr)
    then elim accepted [
      | zero ↦ none
      | suc bias ↦
          some (record { state_idx = curr; src_col = prev; token_bias = bias; num_accepted = 1 })
    ]
    else some
        (record { state_idx = curr; src_col = negsuc 0; token_bias = 0; num_accepted = accepted })

-- The scheduler's view: num_computed_tokens and num_scheduled_tokens by request.
module _ (block_size num_speculative : ℕ) (computed scheduled : ℕ → ℕ) where
  pub new_idx : ℕ → ℤ
  unfolding curr_idx
  new_idx req = curr_idx block_size num_speculative (computed req + scheduled req)

  -- The body of the loop for one request, beside the update of the dict.
  pub stage_request : Columns → ℕ × ℕ → Option Staged
  unfolding stage new_idx lookup seed_idx
  stage_request d (req, accepted) =
      stage (get_or (lookup ℕ_discrete req d) (seed_idx block_size (computed req))) (new_idx req)
        accepted

  abbrev attach : Staged → Option (Columns × List Staged) → Option (Columns × List Staged)
  attach s none = none
  attach s (some (d, ss)) = some (d, s ∷ ss)

  -- `for i, req_id in enumerate(input_batch.req_ids)`
  pub preprocess_mamba : Columns → List (ℕ × ℕ) → Option (Columns × List Staged)
  unfolding stage_request set
  preprocess_mamba d [] = some (d, [])
  preprocess_mamba d ((req, accepted) ∷ reqs) =
      let rest = preprocess_mamba (set ℕ_discrete req (new_idx req) d) reqs in
      elim (stage_request d (req, accepted)) [ none ↦ none | some s ↦ attach s rest ]

  -- The loop of postprocess_mamba_all.
  pub postprocess_mamba_all : ℕ → Columns → List ℕ → Columns
  unfolding pop set
  postprocess_mamba_all zero d reqs = d
  postprocess_mamba_all (suc spec) d [] = d
  postprocess_mamba_all (suc spec) d (req ∷ reqs) =
      postprocess_mamba_all (suc spec)
        (if scheduled req == (1 + suc spec)
          then set ℕ_discrete req (pos ((computed req + scheduled req - 1) / block_size)) d
          else pop req d)
        reqs
