-- ===== src/Mamba/Launch/Reset.antt =====
-- The accepted counts after run_fused_postprocess of src/mamba_utils_guarded.py.
use qwen3_8_flash_dgx_auto_r.Common.{
  ℕ, zero, suc, ◌+◌, ◌<◌, ◌≤◌, length, ◌≡◌, refl, ap, ◌∙◌, Bool, true, false, ◌&&◌, List, [], ◌∷◌,
  Option, none, some, ltb, ◌==◌, if◌then◌else◌, inl, inr, Bool-cases, Option-cases, arith,
}
use qwen3_8_flash_dgx_auto_r.Common.Int.{ℤ}
use qwen3_8_flash_dgx_auto_r.Mamba.Copy.{Outcome}
use qwen3_8_flash_dgx_auto_r.Mamba.Layout.{Entry, Context}
use qwen3_8_flash_dgx_auto_r.Mamba.Kernels.{Slots, Launch, slot_of}
use qwen3_8_flash_dgx_auto_r.Mamba.Launch.{
  Device, Program, Runner, mark, run_program, run_tiles, run_states, run_grid, postprocess_program,
  run_fused_postprocess, temporal_tiles,
}
use qwen3_8_flash_dgx_auto_r.Mamba.Kernels.Resets.{
  stays_put, resets, resets-later, postprocess-resets, slot_of-rows, slot_of-own, resets-own,
}

split_if :
    (a b : Bool) (x y : ℕ)
    → (if a && b then 1 else (if a then x else y)) ≡ (if a then (if b then 1 else x) else y)
split_if true b x y = refl
split_if false b x y = refl

module _ (slot : Option ℕ) where
  mark-false : (out : ℕ → ℕ) (s : ℕ) → mark slot false out s ≡ out s
  mark-false out s = elim (Option-cases slot) [ inl e ↦ rw e refl | inr (n, e) ↦ rw e refl ]

  -- Programs that reset nothing, and those of which only the first may.
  run_tiles-out :
      (program : ℕ → Bool × Outcome) (n : ℕ) (d : Device) (s : ℕ)
      → ((t : ℕ) → (program t).0 ≡ false)
      → (run_tiles slot program n d).out s ≡ d.out s
  unfolding run_tiles run_program
  run_tiles-out program zero d s quiet = refl
  run_tiles-out program (suc n) d s quiet =
      rw (quiet n)
        (mark-false (run_tiles slot program n d).out s ∙ run_tiles-out program n d s quiet)

  run_tiles-first :
      (program : ℕ → Bool × Outcome) (n : ℕ) (d : Device) (s : ℕ)
      → ((t : ℕ) → (program (suc t)).0 ≡ false)
      → (run_tiles slot program (suc n) d).out s ≡ mark slot (program 0).0 d.out s
  unfolding run_tiles run_program
  run_tiles-first program zero d s quiet = refl
  run_tiles-first program (suc n) d s quiet =
      rw (quiet n)
        (mark-false (run_tiles slot program (suc n) d).out s ∙ run_tiles-first program n d s quiet)

  run_states-out :
      (program : ℕ → Entry → ℕ → Bool × Outcome) (k : ℕ) (es : List Entry) (d : Device) (s : ℕ)
      → ((i : ℕ) (e : Entry) (t : ℕ) → 0 < i → (program i e t).0 ≡ false)
      → 0 < k
      → (run_states slot program k es d).out s ≡ d.out s
  unfolding run_states
  run_states-out program k [] d s quiet later = refl
  run_states-out program k (e ∷ es) d s quiet later =
      run_states-out program (k + 1) es (run_tiles slot (program k e) temporal_tiles d) s quiet
        (omega arith)
      ∙ run_tiles-out (program k e) temporal_tiles d s (λ t. quiet k e t later)

  run_states-first :
      (program : ℕ → Entry → ℕ → Bool × Outcome) (e : Entry) (es : List Entry) (d : Device) (s : ℕ)
      → ((i : ℕ) (e : Entry) (t : ℕ) → 0 < i → (program i e t).0 ≡ false)
      → ((t : ℕ) → (program 0 e (suc t)).0 ≡ false)
      → (run_states slot program 0 (e ∷ es) d).out s ≡ mark slot (program 0 e 0).0 d.out s
  unfolding run_states
  run_states-first program e es d s quiet once =
      run_states-out program 1 es (run_tiles slot (program 0 e) temporal_tiles d) s quiet
        (omega arith)
      ∙ run_tiles-first (program 0 e) 15 d s once

module _ (block_size : ℕ) (l : Launch) (tables : ℕ → ℕ → ℤ → ℤ) (s : Slots) where
  abbrev program : Program
  program = postprocess_program block_size l tables false s

  program-resets :
      (b i : ℕ) (e : Entry) (t : ℕ)
      → (program b i e t).0 ≡ resets block_size false s (slot_of l b) i t
  unfolding postprocess_program
  program-resets b i (p, group) t =
      postprocess-resets p block_size (record l { block_table = tables group }) s b i t false
      ∙ ap (λ slot. resets block_size false s slot i t) (slot_of-rows l (tables group) b)

  program_quiet :
      (b i : ℕ) (e : Entry) (t : ℕ) → ((i == 0) && (t == 0)) ≡ false → (program b i e t).0 ≡ false
  program_quiet b i e t h =
      program-resets b i e t ∙ resets-later block_size false s (slot_of l b) i t h

  abbrev stays : ℕ → Bool
  stays = stays_put block_size false s

  module _ (e : Entry) (es : List Entry) (plain : l.idx_mapping ≡ none) where
    batch_out :
        (b : ℕ) (d : Device) (i : ℕ)
        → b < l.num_reqs
        → (run_states (slot_of l b) (program b) 0 (e ∷ es) d).out i
          ≡ mark (some b) (stays b) d.out i
    batch_out b d i lt =
        let own : slot_of l b ≡ some b = slot_of-own l b plain lt in
        let first : (program b 0 e 0).0 ≡ stays b =
          program-resets b 0 e 0
          ∙ ap (λ slot. resets block_size false s slot 0 0) own
          ∙ resets-own block_size s b in
        run_states-first (slot_of l b) (program b) e es d i
          (λ k f t later. program_quiet b k f t (ground (arith, later)))
          (λ t. program_quiet b 0 e (suc t) (ground arith))
        ∙ ap (λ reset. mark (slot_of l b) reset d.out i) first
        ∙ ap (λ slot. mark slot (stays b) d.out i) own

    grid_out :
        (n : ℕ) (d : Device) (i : ℕ)
        → n ≤ l.num_reqs
        → (run_grid (slot_of l) program (e ∷ es) n d).out i
          ≡ (if ltb i n && stays i then 1 else d.out i)
    unfolding run_grid
    grid_out zero d i le = ground arith
    grid_out (suc n) d i le =
        let before = run_grid (slot_of l) program (e ∷ es) n d in
        let ih = grid_out n d i (omega (arith, le)) in
        let this = batch_out n before i (omega (arith, le)) in
        elim (Bool-cases (i == n)) [
          | inl same ↦
              let e' : i ≡ n = ground (arith, same) in ground (arith, this, ih, same, ap stays e')
          | inr apart ↦ ground (arith, this, ih, apart)
        ]

  grid_out-some :
      (es : List Entry) (d : Device) (i : ℕ)
      → l.idx_mapping ≡ none
      → 0 < length es
      → (run_grid (slot_of l) program es l.num_reqs d).out i
        ≡ (if ltb i l.num_reqs && stays i then 1 else d.out i)
  grid_out-some [] d i plain h = absurd (omega (arith, h))
  grid_out-some (e ∷ es) d i plain h = grid_out e es plain l.num_reqs d i (omega arith)

  -- After run_fused_postprocess on a context that records a state, without a mapping, each request
  -- of the batch has its accepted count, but 1 where its plan ends in the column that its state is
  -- in; the counts of the other slots are as before.
  pub run_fused_postprocess-out :
      (r : Runner) (ctx : Context)
      → l.idx_mapping ≡ none
      → r.metadata ≡ some ctx
      → 0 < length ctx.states
      → (i : ℕ)
      → (run_fused_postprocess block_size l tables s r).device.out i ≡ (
          if ltb i l.num_reqs
          then (if stays i then 1 else s.num_accepted_tokens i)
          else r.device.out i)
  unfolding run_fused_postprocess
  run_fused_postprocess-out r ctx plain ready some_state i = elim (Bool-cases (l.num_reqs == 0)) [
    | inl none_yet ↦ rw (run_fused_postprocess, ready, none_yet) (ground (arith, none_yet))
    | inr busy ↦
        rw (run_fused_postprocess, ready, busy)
          (let copied : ℕ → ℕ =
              λ j. if ltb j l.num_reqs then s.num_accepted_tokens j else r.device.out j in
            grid_out-some ctx.states (record r.device { out = copied }) i plain some_state
            ∙ split_if (ltb i l.num_reqs) (stays i) (s.num_accepted_tokens i) (r.device.out i))
  ]

  pub run_fused_postprocess-metadata :
      (r : Runner) → (run_fused_postprocess block_size l tables s r).metadata ≡ r.metadata
  unfolding run_fused_postprocess
  run_fused_postprocess-metadata r = elim (Option-cases r.metadata) [
    | inl e ↦ rw (run_fused_postprocess, e) e
    | inr (ctx, e) ↦ elim (Bool-cases (l.num_reqs == 0)) [
      | inl idle ↦ rw (run_fused_postprocess, e, idle) e
      | inr busy ↦ rw (run_fused_postprocess, e, busy) e
    ]
  ]
