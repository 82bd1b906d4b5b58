-- ===== src/Ple/Prefetch/Run.antt =====
-- Whole runs of the prefetching table of src/vllm_ple_mmap.py.
use qwen3_8_flash_dgx_auto_r.Common.{
  ℕ, ◌<◌, ◌≤◌, ◌≡◌, refl, ap, ◌∙◌, false, ◌||◌, List, [], ◌∷◌, Option, none, some, ltb, ◌==◌,
  length, eq_refl, arith,
}
use qwen3_8_flash_dgx_auto_r.Ple.Prefetch.{
  Pipe, is_stuck, submit, prefetch, take_from, take_job, finish_with, finish_from, finish_job,
  consume_job, consume, Event, prefetched, taken, finished, consumed, step,
}
use qwen3_8_flash_dgx_auto_r.Ple.Prefetch.Promise.{Allowed, same_refl, Refines}
use qwen3_8_flash_dgx_auto_r.Ple.Prefetch.Refine.{step-IsAllowed}

-- The state after __init__; the buffers hold nothing yet.
abbrev pub fresh_pipe : {Row : Type 0} → Pipe Row
fresh_pipe = record {
  slot = false;
  store = λ j. record { n = 0; base = false; is_done = false; ok = false };
  next = 0;
  jobs = λ b. none;
  pending = none;
  queue = [];
  busy = none;
  ids_t = λ b. [];
  rows_t = λ b. [];
  pf_hit = 0;
  pf_miss = 0;
}

module _ {Row : Type 0} (slot_rows : ℕ) (gather : List ℕ → Option (List Row)) where
  -- The results of the events, in order.
  unfoldable pub run : List Event → Pipe Row → List (Option (List Row))
  unfolding step
  run [] s = []
  run (e ∷ es) s = (step slot_rows gather e s).0 ∷ run es (step slot_rows gather e s).1

  -- The promise of one event after the other.
  pub AllAllowed : Option (List ℕ) → List Event → List (Option (List Row)) → Type 0
  AllAllowed a [] outs = outs ≡ []
  AllAllowed a (e ∷ es) outs =
      (out : Option (List Row)) × (rest : List (Option (List Row))) × (a' : Option (List ℕ)) × (outs
        ≡ out ∷ rest)
      × Allowed gather a e out a'
      × AllAllowed a' es rest

  run-from :
      (es : List Event) (s : Pipe Row) (a : Option (List ℕ))
      → Refines gather s a
      → AllAllowed a es (run es s)
  unfolding run AllAllowed
  run-from [] s a v = refl
  run-from (e ∷ es) s a v =
      let (a', allowed, v') = step-IsAllowed gather a slot_rows e s v in
      (
        (step slot_rows gather e s).0,
        run es (step slot_rows gather e s).1,
        a',
        refl,
        allowed,
        run-from es (step slot_rows gather e s).1 a' v',
      )

  pub fresh_pipe-Refines : Refines gather fresh_pipe none
  fresh_pipe-Refines = record {
    kept_of = λ b j e. cc;
    waits_of = λ j h. cc;
    once_of = tt;
    read_of = λ j ids e. cc;
    pending_of = λ j e. cc;
  }

  -- Over any events from the start, in whatever order the two threads take them: a lookup gets
  -- nothing, or the rows of exactly the ids of the last prefetch that was accepted, which are as
  -- many as it wants and which no lookup has got or missed before.
  pub run-AllAllowed : (es : List Event) → AllAllowed none es (run es fresh_pipe)
  run-AllAllowed es = run-from es fresh_pipe none fresh_pipe-Refines

  prefetch-submit :
      (s : Pipe Row) (ids : List ℕ)
      → is_stuck s.store (s.jobs s.slot) ≡ false
      → 0 < length ids
      → length ids ≤ slot_rows
      → prefetch slot_rows ids s ≡ submit ids s
  unfolding prefetch
  prefetch-submit s ids free some_ids fits =
      let sized : ((length ids == 0) || ltb slot_rows (length ids)) ≡ false =
        ground (arith, some_ids, fits) in
      rw (sized, free) refl

  submit-take :
      (s : Pipe Row) (ids : List ℕ)
      → s.busy ≡ none
      → s.queue ≡ []
      → take_job (submit ids s) ≡ record (submit ids s) { queue = []; busy = some (s.next, ids) }
  unfolding submit take_job take_from
  submit-take s ids idle empty = rw (take_from, idle, empty, eq_refl s.next, same_refl s.slot) refl

  finish-consume :
      (s : Pipe Row) (j : ℕ) (ids : List ℕ) (rows : List Row)
      → gather ids ≡ some rows
      → s.pending ≡ some j
      → (s.store j).n ≡ length ids
      → (consume (length ids) (finish_job gather (record s { queue = []; busy = some (j, ids) }))).0
        ≡ some rows
  unfolding consume consume_job finish_job finish_from finish_with
  finish-consume s j ids rows found asked size =
      rw (finish_with, found)
        (rw (consume_job, asked)
          (rw (eq_refl j, same_refl (s.store j).base, size, eq_refl (length ids)) refl))

  -- From a state in which the slot is free, the worker is idle and no job waits: after a prefetch
  -- of some ids that fit a slot and that the table has, and a round of the worker, a lookup of as
  -- many rows gets the rows of those ids.
  pub run-hit :
      (s : Pipe Row) (ids : List ℕ) (rows : List Row)
      → is_stuck s.store (s.jobs s.slot) ≡ false
      → s.busy ≡ none
      → s.queue ≡ []
      → 0 < length ids
      → length ids ≤ slot_rows
      → gather ids ≡ some rows
      → run (prefetched ids ∷ taken ∷ finished ∷ consumed (length ids) ∷ []) s
        ≡ none ∷ none ∷ none ∷ some rows ∷ []
  unfolding run step
  run-hit s ids rows free idle empty some_ids fits found =
      let submitted = prefetch-submit s ids free some_ids fits in
      let took = submit-take s ids idle empty in
      ap (λ r. none ∷ none ∷ none ∷ r ∷ [])
        (ap (λ t. (consume (length ids) (finish_job gather (take_job t))).0) submitted
          ∙ ap (λ t. (consume (length ids) (finish_job gather t)).0) took
          ∙ finish-consume (submit ids s) s.next ids rows found refl (rw (eq_refl s.next) refl))
