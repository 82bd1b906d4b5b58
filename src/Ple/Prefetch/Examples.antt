-- ===== src/Ple/Prefetch/Examples.antt =====
-- Tests of the prefetching table of src/vllm_ple_mmap.py, over a table whose row for `n` is the number
-- 10 * n, and which has no row from 9 on.
use qwen3_8_flash_dgx_auto_r.Common.{
  ℕ, ◌*◌, ◌≡◌, refl, true, false, List, [], ◌∷◌, Option, none, some, ltb, if◌then◌else◌,
}
use qwen3_8_flash_dgx_auto_r.Ple.Prefetch.{
  Event, prefetched, taken, finished, consumed, step, prefetch, submit, take_job, take_from,
  finish_job, finish_from, finish_with, consume, consume_job, lookup_impl,
}
use qwen3_8_flash_dgx_auto_r.Ple.Prefetch.Run.{
  fresh_pipe, run, AllAllowed, run-AllAllowed, fresh_pipe-Refines,
}
use qwen3_8_flash_dgx_auto_r.Ple.Prefetch.Promise.{Refines}
use qwen3_8_flash_dgx_auto_r.Ple.Prefetch.Lookup.{work, lookup_impl-gather}

abbrev rows_of : List ℕ → Option (List ℕ)
rows_of [] = some []
rows_of (n ∷ ns) =
    if ltb n 9
    then (elim (rows_of ns) [ none ↦ none | some rows ↦ some ((10 * n) ∷ rows) ])
    else none

-- The second lookup comes before its rows are there, and the worker is late for it.
abbrev events : List Event
events =
    prefetched (3 ∷ 4 ∷ [])
    ∷ taken
    ∷ finished
    ∷ consumed 2
    ∷ prefetched (5 ∷ [])
    ∷ consumed 1
    ∷ taken
    ∷ finished
    ∷ consumed 1
    ∷ []

late_test :
    run 8 rows_of events fresh_pipe
    ≡ none ∷ none ∷ none ∷ some (30 ∷ 40 ∷ []) ∷ none ∷ none ∷ none ∷ none ∷ none ∷ []
unfolding run step prefetch submit take_job take_from finish_job finish_from finish_with consume
    consume_job
late_test = refl

run-AllAllowed_example : AllAllowed 8 rows_of none events (run 8 rows_of events fresh_pipe)
run-AllAllowed_example = run-AllAllowed 8 rows_of events

lookup_impl-gather_example :
    ((lookup_impl true
        (rows_of (3 ∷ 4 ∷ []))
        2
        (work rows_of (true ∷ false ∷ []) (prefetch 8 (3 ∷ 4 ∷ []) fresh_pipe))).0
      ≡ rows_of (3 ∷ 4 ∷ []))
    × Refines rows_of
        (lookup_impl true
          (rows_of (3 ∷ 4 ∷ []))
          2
          (work rows_of (true ∷ false ∷ []) (prefetch 8 (3 ∷ 4 ∷ []) fresh_pipe))).1
        none
lookup_impl-gather_example =
    lookup_impl-gather rows_of 8 (3 ∷ 4 ∷ []) (true ∷ false ∷ []) fresh_pipe
      (fresh_pipe-Refines 8 rows_of)
