-- ===== src/StepProfile.antt =====
-- src/patch_step_profile.py: execute_model with the profiler around it. The trigger file and the
-- numbers of the traces in /tmp are the file system's part; touching the trigger is the user's. That
-- os.remove fails is not modelled, nor is what the profiler records.
mod Pruning
mod Captures
mod Traces
mod Examples
use qwen3_8_flash_dgx_auto_r.Common.{
  ℕ, zero, suc, ◌+◌, ◌-◌, max, Bool, true, false, ◌&&◌, List, [], ◌∷◌, ◌++◌, ltb, leb, ◌==◌,
  if◌then◌else◌, length, take, is_none, Option, none, some, get_or,
}

-- `_sp_state`, with the steps while a profiler is there; the trigger, and the traces by their number.
pub record Profiler : Type 0 where
  pub prof : Option ℕ
  pub n : ℕ
  pub trigger : Bool
  pub traces : List ℕ

-- `sorted(..., key=_sp_trace_num)`
insert : ℕ → List ℕ → List ℕ
insert t [] = t ∷ []
insert t (u ∷ us) = if ltb u t then u ∷ insert t us else t ∷ u ∷ us

pub sorted : List ℕ → List ℕ
unfolding insert
sorted [] = []
sorted (t ∷ ts) = insert t (sorted ts)

-- `max([0] + [...])`
pub newest : List ℕ → ℕ
newest [] = 0
newest (t ∷ ts) = max t (newest ts)

-- The state when the patched module is loaded.
pub load : Bool → List ℕ → Profiler
unfolding newest
load trigger traces = record { prof = none; n = newest traces; trigger = trigger; traces = traces }

-- `os.remove` of one trace.
pub remove : ℕ → List ℕ → List ℕ
remove t [] = []
remove t (u ∷ us) = let rest = remove t us in if t == u then rest else u ∷ rest

pub remove_all : List ℕ → List ℕ → List ℕ
unfolding remove
remove_all [] traces = traces
remove_all (t ∷ ts) traces = remove_all ts (remove t traces)

-- `_sp_traces()[:-_SP_KEEP]`; `[:-0]` is empty.
pub oldest : ℕ → List ℕ → List ℕ
unfolding sorted
oldest keep traces = if keep == 0 then [] else take (length traces - keep) (sorted traces)

-- The loop that removes them.
pub prune : ℕ → List ℕ → List ℕ
unfolding remove_all oldest
prune keep traces = remove_all (oldest keep traces) traces

-- What precedes `_sp_orig_execute`.
pub begin_step : ℕ → Profiler → Profiler
unfolding prune
begin_step keep s =
    if is_none s.prof && s.trigger
    then record s { prof = some 0; trigger = false; traces = prune keep s.traces }
    else s

-- What follows it, for a count of steps: an old trace of the new number is overwritten.
export : ℕ → List ℕ → List ℕ
unfolding remove
export t traces = t ∷ remove t traces

count_step : ℕ → Profiler → ℕ → Profiler
unfolding export
count_step limit s steps =
    if leb limit (steps + 1)
    then record s { prof = none; n = s.n + 1; traces = export (s.n + 1) s.traces }
    else record s { prof = some (steps + 1) }

end_step : ℕ → Profiler → Option ℕ → Profiler
unfolding count_step
end_step limit s none = s
end_step limit s (some steps) = count_step limit s steps

-- _step_profile_execute, with _SP_STEPS and _SP_KEEP.
pub execute : ℕ → ℕ → Profiler → Profiler
unfolding begin_step end_step
execute limit keep s = let s' = begin_step keep s in end_step limit s' s'.prof

-- A step of the engine, or the user touches the trigger.
pub data Event : Type 0 where
  step touch : Event

pub happen : ℕ → ℕ → Profiler → Event → Profiler
unfolding execute
happen limit keep s step = execute limit keep s
happen limit keep s touch = record s { trigger = true }

pub run : ℕ → ℕ → List Event → Profiler → Profiler
unfolding happen
run limit keep [] s = s
run limit keep (e ∷ es) s = run limit keep es (happen limit keep s e)
