-- ===== src/StepProfile/Examples.antt =====
-- Tests of src/patch_step_profile.py, with captures of two steps of which the last is kept.
use qwen3_8_flash_dgx_auto_r.Common.{◌≡◌, refl, false, List, [], ◌∷◌}
use qwen3_8_flash_dgx_auto_r.StepProfile.{Profiler, load, run, step, touch, Event}

-- Traces 10 and 2 are there; a capture is made, and the trigger is touched again.
abbrev events : List Event
events = step ∷ touch ∷ step ∷ step ∷ touch ∷ []

abbrev before : Profiler
unfolding run
before = run 2 1 events (load false (10 ∷ 2 ∷ []))

before_traces : before.traces ≡ 11 ∷ 10 ∷ []
unfolding before load
before_traces = refl
