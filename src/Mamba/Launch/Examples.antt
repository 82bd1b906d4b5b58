-- ===== src/Mamba/Launch/Examples.antt =====
-- Tests of the launches of src/mamba_utils_guarded.py: one request whose state is in column 1, of
-- which one of two drafts was accepted, and one temporal state.
use qwen3_8_flash_dgx_auto_r.Common.{
  ℕ, zero, suc, ◌+◌, ◌%◌, ◌≤◌, ◌≡◌, refl, false, [], ◌∷◌, none, some, ◌==◌, if◌then◌else◌, inl, inr,
  Bool-cases, arith,
}
use qwen3_8_flash_dgx_auto_r.Common.Int.{ℤ, pos}
use qwen3_8_flash_dgx_auto_r.Mamba.Copy.{StatePool}
use qwen3_8_flash_dgx_auto_r.Mamba.Layout.{Context}
use qwen3_8_flash_dgx_auto_r.Mamba.Kernels.{Slots, Launch}
use qwen3_8_flash_dgx_auto_r.Mamba.Kernels.Resets.{stays_put}
use qwen3_8_flash_dgx_auto_r.Mamba.Launch.{
  Runner, run_fused_precopy, run_fused_postprocess, count_step, report_hits,
}
use qwen3_8_flash_dgx_auto_r.Mamba.Launch.Reset.{run_fused_postprocess-out}
use qwen3_8_flash_dgx_auto_r.Mamba.Launch.Guard.{Launches, start, precopy}
use qwen3_8_flash_dgx_auto_r.Mamba.Launch.Watch.{Launches-reported}

abbrev pool : StatePool
pool = record {
  base_addr = 1000;
  block_stride = 64;
  elem_size = 2;
  inner_size = 8;
  conv_width = 0;
  dim_rows = 0;
  row_stride = 0;
  num_blocks = 3;
}

abbrev context : Context
context = record {
  states = (pool, 0) ∷ [];
  block_table_stride_req = 64;
  block_tables = record { data_ptr = 16; stride = 64 } ∷ [];
}

abbrev slots : Slots
slots = record {
  num_accepted_tokens = λ slot. 2;
  mamba_state_idx = λ slot. pos 1;
  num_scheduled_tokens = λ slot. 3;
  num_computed_tokens = λ slot. 6;
  num_draft_tokens = λ slot. 2;
}

abbrev launch : Launch
launch = record {
  num_reqs = 1;
  idx_mapping = none;
  block_table = λ row col. pos 1;
  dim_first = false;
}

-- Every entry of the block table is stale.
abbrev tables : ℕ → ℕ → ℤ → ℤ
tables group row col = pos 77

abbrev fresh_runner : Runner
fresh_runner = record {
  metadata = some context;
  device = record { out = λ slot. 0; guard_hits = 5 };
  guard_hits_cpu = 0;
  guard_step = 0;
  guard_reported = 0;
  logged = [];
  telemetry = none;
}

run_fused_postprocess-out_example :
    (run_fused_postprocess 4 launch tables slots fresh_runner).device.out 0
    ≡ (if stays_put 4 false slots 0 then 1 else 2)
run_fused_postprocess-out_example =
    run_fused_postprocess-out 4 launch tables slots fresh_runner context refl refl (omega arith) 0

launched : ℕ → Runner
unfolding run_fused_precopy
launched zero = fresh_runner
launched (suc n) =
    run_fused_precopy launch tables 0 (λ slot. pos 1) (λ slot. pos 0) (λ slot. 1) (launched n)

launches : (n : ℕ) → Launches 0 fresh_runner (launched n)
unfolding launched
launches zero = start fresh_runner
launches (suc n) =
    precopy launch tables (λ slot. pos 1) (λ slot. pos 0) (λ slot. 1) fresh_runner (launched n)
      (launches n)

abbrev relaunch : Runner → Runner
relaunch = run_fused_precopy launch tables 0 (λ slot. pos 1) (λ slot. pos 0) (λ slot. 1)

relaunch_step :
    (r : Runner)
    → r.metadata ≡ some context
    → ((relaunch r).metadata ≡ some context) × ((relaunch r).guard_step ≡ r.guard_step + 1)
unfolding run_fused_precopy count_step report_hits
relaunch_step r ready = elim (Bool-cases (((r.guard_step + 1) % 512) == 0)) [
  | inl e ↦ rw (run_fused_precopy, ready, count_step, e) (ready, refl)
  | inr e ↦ rw (run_fused_precopy, ready, count_step, e) (ready, refl)
]

launched_step : (n : ℕ) → ((launched n).metadata ≡ some context) × ((launched n).guard_step ≡ n)
unfolding launched
launched_step zero = (refl, refl)
launched_step (suc n) =
    let (ready, steps) = launched_step n in
    let (still, more) = relaunch_step (launched n) ready in (still, omega (arith, more, steps))

Launches-reported_example : 5 ≤ (launched 1024).guard_reported
Launches-reported_example =
    Launches-reported 0 fresh_runner (launched 1024) (launches 1024)
      (omega (arith, (launched_step 1024).1))
