-- ===== src/Mamba/Step/Ready.antt =====
-- The order of a step in src/mamba_utils_guarded.py: preprocess_mamba before the staging, and the
-- counts that the postprocessing reads back.
use qwen3_8_flash_dgx_auto_r.Common.{
  ℕ, ◌<◌, ◌≡◌, refl, ◌∙◌, Bool, true, false, List, [], ◌∷◌, Option, none, some, if◌then◌else◌, ltb,
  map, keys, All, elem, distinct, length, lookup, ℕ_discrete, inl, inr, Bool-cases, Option-cases,
  ap, arith,
}
use qwen3_8_flash_dgx_auto_r.Common.Int.{ℤ}
use qwen3_8_flash_dgx_auto_r.Mamba.Columns.{Columns, Staged, new_idx, preprocess_mamba}
use qwen3_8_flash_dgx_auto_r.Mamba.Columns.Stage.{preprocess_mamba-IsStaged}
use qwen3_8_flash_dgx_auto_r.Mamba.Layout.{Layer, BlockTable, Context, initialize}
use qwen3_8_flash_dgx_auto_r.Mamba.Kernels.{Slots, Launch}
use qwen3_8_flash_dgx_auto_r.Mamba.Kernels.Resets.{stays_put}
use qwen3_8_flash_dgx_auto_r.Mamba.Launch.{Runner, run_fused_postprocess}
use qwen3_8_flash_dgx_auto_r.Mamba.Launch.Reset.{
  run_fused_postprocess-out, run_fused_postprocess-metadata,
}
use qwen3_8_flash_dgx_auto_r.Mamba.Step.{
  Input, input_of, stage_postprocess_inputs_to_gpu, postprocess_mamba_align_gpu,
}

-- How many draft tokens a request has.
abbrev num_drafts : Option (List ℕ) → ℕ
num_drafts none = 0
num_drafts (some tokens) = length tokens

module _ (scheduled computed : ℕ → ℕ) (drafts : ℕ → Option (List ℕ)) where
  abbrev pub inputs : (ℕ → ℤ) → ℕ → Input
  inputs next req = record {
    state_idx = next req;
    num_scheduled = scheduled req;
    num_computed = computed req;
    num_draft = num_drafts (drafts req);
  }

  input_of-inputs :
      (next : ℕ → ℤ) (req : ℕ) → input_of scheduled computed drafts req (next req) ≡ inputs next req
  unfolding input_of
  input_of-inputs next req = elim (Option-cases (drafts req)) [
    | inl e ↦ rw e refl
    | inr (tokens, e) ↦ rw e refl
  ]

  abbrev stage_inputs : Columns → List ℕ → Option (List Input)
  stage_inputs = stage_postprocess_inputs_to_gpu scheduled computed drafts

  -- Each of the requests has an entry.
  stage-some :
      (next : ℕ → ℤ) (d : Columns) (reqs : List ℕ)
      → All (λ req. lookup ℕ_discrete req d ≡ some (next req)) reqs
      → stage_inputs d reqs ≡ some (map (inputs next) reqs)
  unfolding stage_postprocess_inputs_to_gpu
  stage-some next d [] h = refl
  stage-some next d (req ∷ reqs) (h, hs) =
      rw (stage_postprocess_inputs_to_gpu, h, stage-some next d reqs hs)
        (ap (λ i. some (i ∷ map (inputs next) reqs)) (input_of-inputs next req))

  elem-All :
      (P : ℕ → Type 0) (reqs : List ℕ)
      → ((req : ℕ) → elem ℕ_discrete req reqs ≡ true → P req)
      → All P reqs
  unfolding elem
  elem-All P [] h = tt
  elem-All P (req ∷ reqs) h =
      (h req (ground arith), elem-All P reqs (λ r e. h r (ground (arith, e))))

  module _ (block_size num_speculative : ℕ) where
    abbrev next : ℕ → ℤ
    next = new_idx block_size num_speculative computed scheduled

    -- When each request of the batch has an accepted token and occurs once, then after
    -- preprocess_mamba no assertion of stage_postprocess_inputs_to_gpu fails for that batch, and it
    -- stages for each request its new column, its scheduled and its computed tokens, and the number
    -- of its draft tokens, 0 where it has none, in that order of fields.
    pub preprocess-stage :
        (reqs : List (ℕ × ℕ)) (d : Columns)
        → distinct ℕ_discrete (keys reqs) ≡ true
        → All (λ r. 0 < r.1) reqs
        → (d' : Columns) × (ss : List Staged) × (preprocess_mamba block_size num_speculative
              computed scheduled d reqs
            ≡ some (d', ss))
          × (stage_inputs d' (keys reqs) ≡ some (map (inputs next) (keys reqs)))
    preprocess-stage reqs d once accepted =
        let (d', ss, run, v) =
          preprocess_mamba-IsStaged block_size num_speculative computed scheduled reqs d once
            accepted in
        let entries : All (λ req. lookup ℕ_discrete req d' ≡ some (next req)) (keys reqs) =
          elem-All (λ req. lookup ℕ_discrete req d' ≡ some (next req)) (keys reqs)
            (λ req e. v.stored req ∙ rw e refl) in
        (d', ss, run, stage-some next d' (keys reqs) entries)

module _ (dim_first : Bool) (groups : List (List Layer)) (block_tables : List BlockTable)
    (block_size : ℕ) (l : Launch) (tables : ℕ → ℕ → ℤ → ℤ) (s : Slots) (cpu : ℕ → ℕ) (r : Runner)
    (ctx : Context) where
  pub postprocess_mamba_align_gpu-counts :
      initialize dim_first groups block_tables r.metadata ≡ some ctx
      → l.idx_mapping ≡ none
      → 0 < length ctx.states
      → (r' : Runner) × (counts : ℕ → ℕ) × (postprocess_mamba_align_gpu dim_first groups
            block_tables block_size l tables s cpu r
          ≡ some (r', counts))
        × (r'.metadata ≡ some ctx)
        × ((i : ℕ)
            → counts i ≡ (
                if ltb i l.num_reqs
                then (if stays_put block_size false s i then 1 else s.num_accepted_tokens i)
                else cpu i))
  unfolding postprocess_mamba_align_gpu
  postprocess_mamba_align_gpu-counts ready plain some_state =
      let r0 : Runner = record r { metadata = some ctx } in
      let r' = run_fused_postprocess block_size l tables s r0 in
      (
        r',
        λ i. if ltb i l.num_reqs then r'.device.out i else cpu i,
        rw ready refl,
        run_fused_postprocess-metadata block_size l tables s r0,
        λ i. elim (Bool-cases (ltb i l.num_reqs)) [
          | inl e ↦ rw e (
              run_fused_postprocess-out block_size l tables s r0 ctx plain refl some_state i
              ∙ rw e refl)
          | inr e ↦ rw e refl
        ],
      )
