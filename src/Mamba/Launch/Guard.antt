-- ===== src/Mamba/Launch/Guard.antt =====
-- The guard telemetry of run_fused_precopy in src/mamba_utils_guarded.py.
use qwen3_8_flash_dgx_auto_r.Common.{
  ℕ, zero, suc, ◌+◌, ◌≤◌, ◌≡◌, refl, Bool, true, false, List, [], ◌∷◌, Option, ◌==◌, inl, inr,
  Bool-cases, Option-cases, arith,
}
use qwen3_8_flash_dgx_auto_r.Common.Int.{ℤ}
use qwen3_8_flash_dgx_auto_r.Mamba.Copy.{Outcome}
use qwen3_8_flash_dgx_auto_r.Mamba.Layout.{Entry}
use qwen3_8_flash_dgx_auto_r.Mamba.Kernels.{Slots, Launch, slot_of}
use qwen3_8_flash_dgx_auto_r.Mamba.Launch.{
  Device, Program, Runner, run_program, run_tiles, run_states, run_grid, precopy_program,
  postprocess_program, run_fused_postprocess, run_fused_postprocess_align, run_fused_precopy,
  count_step, temporal_tiles,
}

-- Launches on a context, with whatever arguments each has.
pub data Launches (port : ℕ) : Runner → Runner → Type 0 where
  start : (r : Runner) → Launches port r r
  precopy :
      (l : Launch) (tables : ℕ → ℕ → ℤ → ℤ) (state_idx src_col : ℕ → ℤ) (token_bias : ℕ → ℕ)
      (r r' : Runner)
      → Launches port r r'
      → Launches port r (run_fused_precopy l tables port state_idx src_col token_bias r')
  postprocess :
      (block_size : ℕ) (l : Launch) (tables : ℕ → ℕ → ℤ → ℤ) (s : Slots) (r r' : Runner)
      → Launches port r r'
      → Launches port r (run_fused_postprocess block_size l tables s r')
  postprocess_align :
      (block_size : ℕ) (l : Launch) (tables : ℕ → ℕ → ℤ → ℤ) (s : Slots) (r r' : Runner)
      → Launches port r r'
      → Launches port r (run_fused_postprocess_align block_size l tables s r').1

module _ (slot : Option ℕ) where
  run_tiles-hits :
      (program : ℕ → Bool × Outcome) (n : ℕ) (d : Device)
      → d.guard_hits ≤ (run_tiles slot program n d).guard_hits
  unfolding run_tiles run_program
  run_tiles-hits program zero d = omega arith
  run_tiles-hits program (suc n) d = omega (arith, run_tiles-hits program n d)

  run_states-hits :
      (program : ℕ → Entry → ℕ → Bool × Outcome) (k : ℕ) (es : List Entry) (d : Device)
      → d.guard_hits ≤ (run_states slot program k es d).guard_hits
  unfolding run_states
  run_states-hits program k [] d = omega arith
  run_states-hits program k (e ∷ es) d =
      let tiles = run_tiles slot (program k e) temporal_tiles d in
      omega (
        arith,
        run_tiles-hits (program k e) temporal_tiles d,
        run_states-hits program (k + 1) es tiles,
      )

run_grid-hits :
    (slot : ℕ → Option ℕ) (program : Program) (es : List Entry) (n : ℕ) (d : Device)
    → d.guard_hits ≤ (run_grid slot program es n d).guard_hits
unfolding run_grid
run_grid-hits slot program es zero d = omega arith
run_grid-hits slot program es (suc n) d = omega (
  arith,
  run_grid-hits slot program es n d,
  run_states-hits (slot n) (program n) 0 es (run_grid slot program es n d),
)

-- Only the counter on the device has grown.
pub record IsQuiet (r r' : Runner) : Type 0 where
  pub hits_of : r.device.guard_hits ≤ r'.device.guard_hits
  pub cpu_of : r'.guard_hits_cpu ≡ r.guard_hits_cpu
  pub step_of : r'.guard_step ≡ r.guard_step
  pub reported_of : r'.guard_reported ≡ r.guard_reported
  pub logged_of : r'.logged ≡ r.logged

IsQuiet-device :
    (r : Runner) (d : Device)
    → r.device.guard_hits ≤ d.guard_hits
    → IsQuiet r (record r { device = d })
IsQuiet-device r d le = record {
  hits_of = le;
  cpu_of = refl;
  step_of = refl;
  reported_of = refl;
  logged_of = refl;
}

-- What holds on through both kinds of change holds on through every launch.
module _ (port : ℕ) (Holds : Runner → Type 0)
    (grows : (r r' : Runner) → IsQuiet r r' → Holds r → Holds r')
    (counts : (r : Runner) → Holds r → Holds (count_step port r)) where
  precopy-Holds :
      (l : Launch) (tables : ℕ → ℕ → ℤ → ℤ) (state_idx src_col : ℕ → ℤ) (token_bias : ℕ → ℕ)
      (r : Runner)
      → Holds r
      → Holds (run_fused_precopy l tables port state_idx src_col token_bias r)
  unfolding run_fused_precopy
  precopy-Holds l tables state_idx src_col token_bias r h = elim (Option-cases r.metadata) [
    | inl e ↦ rw (run_fused_precopy, e) h
    | inr (ctx, e) ↦ elim (Bool-cases (l.num_reqs == 0)) [
      | inl idle ↦ rw (run_fused_precopy, e, idle) h
      | inr busy ↦
          rw (run_fused_precopy, e, busy)
            (counts _ (
              grows r _
                (IsQuiet-device r _ (
                  run_grid-hits (slot_of l) (precopy_program l tables state_idx src_col token_bias)
                    ctx.states l.num_reqs r.device))
                h))
    ]
  ]

  postprocess-Holds :
      (block_size : ℕ) (l : Launch) (tables : ℕ → ℕ → ℤ → ℤ) (s : Slots) (r : Runner)
      → Holds r
      → Holds (run_fused_postprocess block_size l tables s r)
  unfolding run_fused_postprocess
  postprocess-Holds block_size l tables s r h = elim (Option-cases r.metadata) [
    | inl e ↦ rw (run_fused_postprocess, e) h
    | inr (ctx, e) ↦ elim (Bool-cases (l.num_reqs == 0)) [
      | inl idle ↦ rw (run_fused_postprocess, e, idle) h
      | inr busy ↦
          rw (run_fused_postprocess, e, busy)
            (grows r _
              (IsQuiet-device r _ (
                run_grid-hits (slot_of l) (postprocess_program block_size l tables false s)
                  ctx.states l.num_reqs _))
              h)
    ]
  ]

  align-Holds :
      (block_size : ℕ) (l : Launch) (tables : ℕ → ℕ → ℤ → ℤ) (s : Slots) (r : Runner)
      → Holds r
      → Holds (run_fused_postprocess_align block_size l tables s r).1
  unfolding run_fused_postprocess_align
  align-Holds block_size l tables s r h = elim (Option-cases r.metadata) [
    | inl e ↦ rw (run_fused_postprocess_align, e) h
    | inr (ctx, e) ↦ elim (Bool-cases (l.num_reqs == 0)) [
      | inl idle ↦ rw (run_fused_postprocess_align, e, idle) h
      | inr busy ↦
          rw (run_fused_postprocess_align, e, busy)
            (grows r _
              (IsQuiet-device r _ (
                run_grid-hits (slot_of l) (postprocess_program block_size l tables true s)
                  ctx.states l.num_reqs _))
              h)
    ]
  ]

  pub Launches-Holds : (r r' : Runner) → Launches port r r' → Holds r → Holds r'
  Launches-Holds r _ (start _) h = h
  Launches-Holds r _ (precopy l tables state_idx src_col token_bias _ r' run) h =
      precopy-Holds l tables state_idx src_col token_bias r' (Launches-Holds r r' run h)
  Launches-Holds r _ (postprocess block_size l tables s _ r' run) h =
      postprocess-Holds block_size l tables s r' (Launches-Holds r r' run h)
  Launches-Holds r _ (postprocess_align block_size l tables s _ r' run) h =
      align-Holds block_size l tables s r' (Launches-Holds r r' run h)
