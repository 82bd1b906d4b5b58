-- ===== src/Ple/Prefetch.antt =====
-- PrefetchingMmapTable of src/vllm_ple_mmap.py: the model thread, which prefetches and consumes, and
-- the worker, as steps on one state. A job object is a number with its fields in a store. The gather
-- of the wrapped table is a parameter, with `none` for an exception. A wait that ends is a look at
-- `done` at that moment, in time or not. A slot's part of a buffer is the list of what was put there.
mod Promise
mod Worker
mod Submit
mod Refine
mod Run
mod Lookup
mod Examples
use qwen3_8_flash_dgx_auto_r.Common.{
  ℕ, zero, suc, ◌+◌, Bool, true, false, not, ◌&&◌, ◌||◌, List, [], ◌∷◌, ◌++◌, Option, none, some,
  ltb, ◌==◌, if◌then◌else◌, length,
}

-- The job dict: "n", "base" as the slot, "done" and "ok".
pub record Job : Type 0 where
  pub n : ℕ
  pub base : Bool
  pub is_done : Bool
  pub ok : Bool

-- The fields of a PrefetchingMmapTable, the job that the worker has taken with the ids that it has
-- read for it, and the counters pf_hit and pf_miss.
pub record Pipe (Row : Type 0) : Type 0 where
  pub slot : Bool
  pub store : ℕ → Job
  pub next : ℕ
  pub jobs : Bool → Option ℕ
  pub pending : Option ℕ
  pub queue : List ℕ
  pub busy : Option (ℕ × List ℕ)
  pub ids_t : Bool → List ℕ
  pub rows_t : Bool → List Row
  pub pf_hit : ℕ
  pub pf_miss : ℕ

abbrev pub same : Bool → Bool → Bool
same true b = b
same false b = not b

-- An assignment to a slot, and to a job.
abbrev pub at_slot {ℓ} : {A : Type ℓ} → Bool → A → (Bool → A) → Bool → A
at_slot b a f c = if same b c then a else f c

abbrev pub at_job : ℕ → Job → (ℕ → Job) → ℕ → Job
at_job j job store k = if k == j then job else store k

-- `prev is not None and not prev["done"].wait(5.0)`
abbrev pub is_stuck : (ℕ → Job) → Option ℕ → Bool
is_stuck store none = false
is_stuck store (some j) = not (store j).is_done

module _ {Row : Type 0} where
  -- prefetch, past the checks.
  pub submit : List ℕ → Pipe Row → Pipe Row
  submit ids s = record s {
    slot = not s.slot;
    store =
        at_job s.next (record { n = length ids; base = s.slot; is_done = false; ok = false })
          s.store;
    next = s.next + 1;
    jobs = at_slot s.slot (some s.next) s.jobs;
    pending = some s.next;
    queue = s.queue ++ s.next ∷ [];
    ids_t = at_slot s.slot ids s.ids_t;
  }

  -- prefetch, with `slot_rows` for _SLOT.
  pub prefetch : ℕ → List ℕ → Pipe Row → Pipe Row
  unfolding submit
  prefetch slot_rows ids s =
      if (length ids == 0) || ltb slot_rows (length ids)
      then s
      else if is_stuck s.store (s.jobs s.slot)
      then record s { slot = not s.slot }
      else submit ids s

  -- _worker, up to the read of the ids.
  take_from : Pipe Row → Option (ℕ × List ℕ) → List ℕ → Pipe Row
  take_from s (some b) q = s
  take_from s none [] = s
  take_from s none (j ∷ q) = record s { queue = q; busy = some (j, s.ids_t (s.store j).base) }

  pub take_job : Pipe Row → Pipe Row
  unfolding take_from
  take_job s = take_from s s.busy s.queue

  -- _worker, from the result of _gather on.
  finish_with : Pipe Row → ℕ → Option (List Row) → Pipe Row
  finish_with s j none = record s {
    busy = none;
    store = at_job j (record (s.store j) { is_done = true }) s.store;
  }
  finish_with s j (some rows) = record s {
    busy = none;
    store = at_job j (record (s.store j) { is_done = true; ok = true }) s.store;
    rows_t = at_slot (s.store j).base rows s.rows_t;
  }

  finish_from : (List ℕ → Option (List Row)) → Pipe Row → Option (ℕ × List ℕ) → Pipe Row
  unfolding finish_with
  finish_from gather s none = s
  finish_from gather s (some (j, ids)) = finish_with s j (gather ids)

  pub finish_job : (List ℕ → Option (List Row)) → Pipe Row → Pipe Row
  unfolding finish_from
  finish_job gather s = finish_from gather s s.busy

  abbrev missed : Pipe Row → Option (List Row) × Pipe Row
  missed s = (none, record s { pending = none; pf_miss = s.pf_miss + 1 })

  -- consume, after the swap of `self._pending`.
  consume_job : ℕ → Pipe Row → Option ℕ → Option (List Row) × Pipe Row
  consume_job want_rows s none = missed s
  consume_job want_rows s (some j) =
      if (s.store j).n == want_rows && (s.store j).is_done && (s.store j).ok
      then (some (s.rows_t (s.store j).base), record s { pending = none; pf_hit = s.pf_hit + 1 })
      else missed s

  pub consume : ℕ → Pipe Row → Option (List Row) × Pipe Row
  unfolding consume_job
  consume want_rows s = consume_job want_rows s s.pending

abbrev pub prefer {ℓ} : {A : Type ℓ} → Option A → Option A → Option A
prefer none fallback = fallback
prefer (some a) fallback = some a

-- _lookup_impl, where the table can consume: for an output of one byte an element or not, with what
-- the original forward gives for the ids of the batch.
pub lookup_impl :
    {Row : Type 0} → Bool → Option (List Row) → ℕ → Pipe Row → Option (List Row) × Pipe Row
unfolding consume
lookup_impl true forward want_rows s =
    let got = consume want_rows s in (prefer got.0 forward, got.1)
lookup_impl false forward want_rows s = (forward, s)

-- What the two threads do, one at a time.
pub data Event : Type 0 where
  prefetched : List ℕ → Event
  taken finished : Event
  consumed : ℕ → Event

pub step :
    {Row : Type 0}
    → ℕ
    → (List ℕ → Option (List Row))
    → Event
    → Pipe Row
    → Option (List Row) × Pipe Row
unfolding prefetch take_job finish_job consume
step slot_rows gather (prefetched ids) s = (none, prefetch slot_rows ids s)
step slot_rows gather taken s = (none, take_job s)
step slot_rows gather finished s = (none, finish_job gather s)
step slot_rows gather (consumed want_rows) s = consume want_rows s
