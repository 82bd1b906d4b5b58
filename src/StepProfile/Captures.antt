-- ===== src/StepProfile/Captures.antt =====
-- Captures of src/patch_step_profile.py, and what they leave in /tmp.
use qwen3_8_flash_dgx_auto_r.Common.{
  ℕ, ◌+◌, ◌≤◌, ◌<◌, max, ◌≡◌, true, List, length, has, Option, none, some,
}
use qwen3_8_flash_dgx_auto_r.StepProfile.{Profiler}
use qwen3_8_flash_dgx_auto_r.StepProfile.Traces.{is_distinct}

-- What a capture in progress promises.
abbrev IsCounting : ℕ → ℕ → Option ℕ → List ℕ → Type 0
IsCounting limit keep none traces = Unit {0}
IsCounting limit keep (some steps) traces = (steps < limit) × (length traces ≤ keep)

-- The traces have different numbers up to `n`, and are at most `most` and one more than `keep`.
pub record IsTracked (limit keep most : ℕ) (s : Profiler) : Type 0 where
  pub distinct : is_distinct s.traces ≡ true
  pub numbered : (t : ℕ) → has t s.traces ≡ true → t ≤ s.n
  pub bounded : length s.traces ≤ max most (keep + 1)
  pub counting : IsCounting limit keep s.prof s.traces

module _ (limit keep most : ℕ) (positive : 0 < limit) (some_kept : 0 < keep) where
  abbrev Tracked : Profiler → Type 0
  Tracked = IsTracked limit keep most
