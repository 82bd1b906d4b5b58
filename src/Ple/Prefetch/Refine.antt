-- ===== src/Ple/Prefetch/Refine.antt =====
-- The steps of the two threads of src/vllm_ple_mmap.py, beside the promise.
use qwen3_8_flash_dgx_auto_r.Common.{
  ℕ, ◌+◌, ◌≡◌, refl, not, ◌&&◌, ◌||◌, List, Option, none, some, ltb, ◌==◌, length, inl, inr,
  Bool-cases, arith,
}
use qwen3_8_flash_dgx_auto_r.Ple.Prefetch.{
  Pipe, is_stuck, prefetch, missed, consume_job, consume, Event, prefetched, taken, finished,
  consumed, step,
}
use qwen3_8_flash_dgx_auto_r.Ple.Prefetch.Promise.{
  Allowed, skips, accepts, takes, finishes, misses, hits, Refines,
}
use qwen3_8_flash_dgx_auto_r.Ple.Prefetch.Worker.{take_job-Refines, finish_job-Refines}
use qwen3_8_flash_dgx_auto_r.Ple.Prefetch.Submit.{submit-Refines}

module _ {Row : Type 0} (gather : List ℕ → Option (List Row)) (a : Option (List ℕ)) where
  miss-Refines : (s : Pipe Row) → Refines gather s a → Refines gather (missed s).1 none
  miss-Refines s v = record {
    kept_of = v.kept_of;
    waits_of = v.waits_of;
    once_of = v.once_of;
    read_of = v.read_of;
    pending_of = λ j e. cc;
  }

  -- A step is allowed by the promise, and leaves it refined.
  abbrev pub IsAllowed : Event → Option (List Row) × Pipe Row → Type 0
  IsAllowed e (out, s') = (a' : Option (List ℕ)) × Allowed gather a e out a' × Refines gather s' a'

  toggle-Refines :
      (s : Pipe Row) → Refines gather s a → Refines gather (record s { slot = not s.slot }) a
  toggle-Refines s v = record {
    kept_of = v.kept_of;
    waits_of = v.waits_of;
    once_of = v.once_of;
    read_of = v.read_of;
    pending_of = v.pending_of;
  }

  pub prefetch-IsAllowed :
      (slot_rows : ℕ) (ids : List ℕ) (s : Pipe Row)
      → Refines gather s a
      → IsAllowed (prefetched ids) (none, prefetch slot_rows ids s)
  unfolding prefetch
  prefetch-IsAllowed slot_rows ids s v =
      elim (Bool-cases ((length ids == 0) || ltb slot_rows (length ids))) [
        | inl e ↦ rw e (a, skips a ids, v)
        | inr e ↦ elim (Bool-cases (is_stuck s.store (s.jobs s.slot))) [
          | inl stuck ↦ rw (e, stuck) (a, skips a ids, toggle-Refines s v)
          | inr free ↦ rw (e, free) (some ids, accepts a ids, submit-Refines gather a s free v ids)
        ]
      ]

  hit-Refines :
      (s : Pipe Row)
      → Refines gather s a
      → Refines gather (record s { pending = none; pf_hit = s.pf_hit + 1 }) none
  hit-Refines s v = record {
    kept_of = v.kept_of;
    waits_of = v.waits_of;
    once_of = v.once_of;
    read_of = v.read_of;
    pending_of = λ j e. cc;
  }

  consume_job-IsAllowed :
      (want : ℕ) (s : Pipe Row) (o : Option ℕ)
      → s.pending ≡ o
      → Refines gather s a
      → IsAllowed (consumed want) (consume_job want s o)
  unfolding consume_job
  consume_job-IsAllowed want s none e v = (none, misses a want, miss-Refines s v)
  consume_job-IsAllowed want s (some j) e v =
      elim (Bool-cases ((s.store j).n == want && (s.store j).is_done && (s.store j).ok)) [
        | inl hit ↦
            let (here, asked) = v.pending_of j e in
            let kept = v.kept_of (s.store j).base j here in
            let b = (s.store j).base in
            rw hit (
              none,
              hits a (s.ids_t b) want (s.rows_t b) asked (ground (arith, hit, kept.2))
                  (kept.3 (ground (arith, hit))),
              hit-Refines s v,
            )
        | inr miss ↦ rw miss (none, misses a want, miss-Refines s v)
      ]

  pub step-IsAllowed :
      (slot_rows : ℕ) (e : Event) (s : Pipe Row)
      → Refines gather s a
      → IsAllowed e (step slot_rows gather e s)
  unfolding step consume
  step-IsAllowed slot_rows (prefetched ids) s v = prefetch-IsAllowed slot_rows ids s v
  step-IsAllowed slot_rows taken s v = (a, takes a, take_job-Refines gather a s v)
  step-IsAllowed slot_rows finished s v = (a, finishes a, finish_job-Refines gather a s v)
  step-IsAllowed slot_rows (consumed want) s v = consume_job-IsAllowed want s s.pending refl v

  pub consume-IsAllowed :
      (want : ℕ) (s : Pipe Row) → Refines gather s a → IsAllowed (consumed want) (consume want s)
  unfolding consume
  consume-IsAllowed want s v = consume_job-IsAllowed want s s.pending refl v
