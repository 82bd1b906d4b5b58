-- ===== src/Mamba/Launch.antt =====
-- The launches of MambaSpecDecodeGPUContext in src/mamba_utils_guarded.py: run_fused_postprocess,
-- run_fused_precopy and run_fused_postprocess_align over the whole grid, and the guard telemetry.
-- The programs of a grid store to different places or add to a counter, and are run in order; of
-- what they copy only the guard hits are kept. The asynchronous copy into the pinned mirror is done
-- by the next refresh, 512 steps later, and is made at once.
pub mod Reset
mod Guard
mod Watch
mod Examples
use qwen3_8_flash_dgx_auto_r.Common.{
  ℕ, zero, suc, ◌+◌, ◌%◌, Bool, true, false, List, [], ◌∷◌, Option, none, some, ltb, ◌==◌,
  if◌then◌else◌, is_none,
}
use qwen3_8_flash_dgx_auto_r.Common.Int.{ℤ}
use qwen3_8_flash_dgx_auto_r.Telemetry.{Telemetry, set_guard_hits}
use qwen3_8_flash_dgx_auto_r.Mamba.Copy.{StatePool, Outcome, idle, guard_hit, copies}
use qwen3_8_flash_dgx_auto_r.Mamba.Layout.{Entry, Context}
use qwen3_8_flash_dgx_auto_r.Mamba.Kernels.{
  Slots, Launch, slot_of, postprocess_mamba_fused_kernel, precopy_mamba_align_fused_kernel,
}

-- num_accepted_tokens_out, and the counter guard_hits.
pub record Device : Type 0 where
  pub out : ℕ → ℕ
  pub guard_hits : ℕ

-- `_TEMPORAL_TILES`
abbrev pub temporal_tiles : ℕ
temporal_tiles = 16

-- What a program does, by its three ids and the metadata of its state.
abbrev pub Program : Type 0
Program = ℕ → ℕ → Entry → ℕ → Bool × Outcome

abbrev pub hits_of : Outcome → ℕ
hits_of guard_hit = 1
hits_of idle = 0
hits_of (copies cs) = 0

-- `tl.store(num_accepted_tokens_out_ptr + req_idx, 1)`
abbrev pub mark : Option ℕ → Bool → (ℕ → ℕ) → ℕ → ℕ
mark none reset out s = out s
mark (some slot) reset out s = if reset then (if s == slot then 1 else out s) else out s

run_program : Option ℕ → Bool × Outcome → Device → Device
run_program slot (reset, outcome) d = record {
  out = mark slot reset d.out;
  guard_hits = d.guard_hits + hits_of outcome;
}

run_tiles : Option ℕ → (ℕ → Bool × Outcome) → ℕ → Device → Device
unfolding run_program
run_tiles slot program zero d = d
run_tiles slot program (suc n) d = run_program slot (program n) (run_tiles slot program n d)

run_states : Option ℕ → (ℕ → Entry → ℕ → Bool × Outcome) → ℕ → List Entry → Device → Device
unfolding run_tiles
run_states slot program state_idx [] d = d
run_states slot program state_idx (e ∷ es) d =
    run_states slot program (state_idx + 1) es
      (run_tiles slot (program state_idx e) temporal_tiles d)

-- The grid, of the first `n` batch indices.
pub run_grid : (ℕ → Option ℕ) → Program → List Entry → ℕ → Device → Device
unfolding run_states
run_grid slot program es zero d = d
run_grid slot program es (suc n) d =
    run_states (slot n) (program n) 0 es (run_grid slot program es n d)

-- The context, beside its buffers: what is recorded of the states once it is initialised, the guard
-- telemetry, the errors that it logged, and the module vllm_custom_metrics where it can be imported.
pub record Runner : Type 0 where
  pub metadata : Option Context
  pub device : Device
  pub guard_hits_cpu : ℕ
  pub guard_step : ℕ
  pub guard_reported : ℕ
  pub logged : List ℕ
  pub telemetry : Option Telemetry

-- `if self.guard_step % 512 == 0`
pub report_hits : ℕ → Runner → Runner
report_hits port r =
    let hits = r.guard_hits_cpu in
    let higher = ltb r.guard_reported hits in
    record r {
      telemetry = elim r.telemetry [ none ↦ none | some t ↦ some (set_guard_hits port hits t) ];
      logged = if higher then hits ∷ r.logged else r.logged;
      guard_reported = if higher then hits else r.guard_reported;
      guard_hits_cpu = r.device.guard_hits;
    }

pub count_step : ℕ → Runner → Runner
unfolding report_hits
count_step port r =
    let next = record r { guard_step = r.guard_step + 1 } in
    if ((r.guard_step + 1) % 512) == 0 then report_hits port next else next

-- The launch as the programs of a group's state see it.
abbrev in_group : Launch → (ℕ → ℕ → ℤ → ℤ) → ℕ → Launch
in_group l tables group = record l { block_table = tables group }

module _ (block_size : ℕ) (l : Launch) (tables : ℕ → ℕ → ℤ → ℤ) where
  pub postprocess_program : Bool → Slots → Program
  postprocess_program precomputed s batch_idx state_idx (p, group) tile_idx =
      postprocess_mamba_fused_kernel p block_size precomputed (in_group l tables group) s batch_idx
        state_idx tile_idx

  -- run_fused_postprocess; V1 has no mapping.
  pub run_fused_postprocess : Slots → Runner → Runner
  unfolding run_grid postprocess_program
  run_fused_postprocess s r = elim r.metadata [
    | none ↦ r
    | some ctx ↦ if l.num_reqs == 0 then r else record r {
      device =
          run_grid (slot_of l) (postprocess_program false s) ctx.states l.num_reqs
            (record r.device {
              out = λ i. if ltb i l.num_reqs then s.num_accepted_tokens i else r.device.out i;
            });
    }
  ]

  -- run_fused_postprocess_align: the counts that it leaves in num_accepted_tokens_gpu, which the
  -- kernel stores to while it reads a snapshot of them in num_accepted_tokens_out.
  pub run_fused_postprocess_align : Slots → Runner → (ℕ → ℕ) × Runner
  unfolding run_grid postprocess_program
  run_fused_postprocess_align s r = elim r.metadata [
    | none ↦ (s.num_accepted_tokens, r)
    | some ctx ↦
        if l.num_reqs == 0
        then (s.num_accepted_tokens, r)
        else (let d =
              run_grid (slot_of l) (postprocess_program true s) ctx.states l.num_reqs
                (record r.device { out = s.num_accepted_tokens }) in
            (d.out, record r { device = record d { out = s.num_accepted_tokens } }))
  ]

module _ (l : Launch) (tables : ℕ → ℕ → ℤ → ℤ) where
  pub precopy_program : (ℕ → ℤ) → (ℕ → ℤ) → (ℕ → ℕ) → Program
  precopy_program state_idx src_col token_bias batch_idx state (p, group) tile_idx = (
    false,
    precopy_mamba_align_fused_kernel p (in_group l tables group) state_idx src_col token_bias
        batch_idx tile_idx,
  )

  -- run_fused_precopy
  pub run_fused_precopy : ℕ → (ℕ → ℤ) → (ℕ → ℤ) → (ℕ → ℕ) → Runner → Runner
  unfolding run_grid precopy_program count_step
  run_fused_precopy port state_idx src_col token_bias r = elim r.metadata [
    | none ↦ r
    | some ctx ↦
        if l.num_reqs == 0
        then r
        else count_step port (record r {
          device =
              run_grid (slot_of l) (precopy_program state_idx src_col token_bias) ctx.states
                l.num_reqs r.device;
        })
  ]
