-- ===== src/Ple/Prefetch/Promise.antt =====
-- The promise of the prefetching table of src/vllm_ple_mmap.py: what a lookup may get.
use qwen3_8_flash_dgx_auto_r.Common.{
  ℕ, ◌<◌, ◌≡◌, refl, Bool, true, false, List, [], ◌∷◌, Option, none, some, length, has, arith,
}
use qwen3_8_flash_dgx_auto_r.Ple.Prefetch.{Pipe, same, Event, prefetched, taken, finished, consumed}

-- The promise, with the ids that a lookup may get the rows of.
pub data Allowed {Row : Type 0} (gather : List ℕ → Option (List Row))
    : Option (List ℕ) → Event → Option (List Row) → Option (List ℕ) → Type 0 where
  skips : (a : Option (List ℕ)) (ids : List ℕ) → Allowed gather a (prefetched ids) none a
  accepts : (a : Option (List ℕ)) (ids : List ℕ) → Allowed gather a (prefetched ids) none (some ids)
  takes : (a : Option (List ℕ)) → Allowed gather a taken none a
  finishes : (a : Option (List ℕ)) → Allowed gather a finished none a
  misses : (a : Option (List ℕ)) (want : ℕ) → Allowed gather a (consumed want) none none
  hits :
      (a : Option (List ℕ)) (ids : List ℕ) (want : ℕ) (rows : List Row)
      → a ≡ some ids
      → length ids ≡ want
      → gather ids ≡ some rows
      → Allowed gather a (consumed want) (some rows) none

-- The jobs that are not done, in the order of the worker.
abbrev pub held : Option (ℕ × List ℕ) → List ℕ → List ℕ
held none q = q
held (some (j, ids)) q = j ∷ q

abbrev pub Once : List ℕ → Type 0
Once [] = Unit
Once (j ∷ js) = (has j js ≡ false) × Once js

pub later : (j k : ℕ) (q : List ℕ) → has k q ≡ true → has k (j ∷ q) ≡ true
later j k q h = ground (arith, h)

pub first_in : (j : ℕ) (q : List ℕ) → has j (j ∷ q) ≡ true
first_in j q = ground arith

pub same_sound : (b c : Bool) → same b c ≡ true → b ≡ c
same_sound true true e = refl
same_sound true false e = cc
same_sound false true e = cc
same_sound false false e = refl

pub same_refl : (b : Bool) → same b b ≡ true
same_refl true = refl
same_refl false = refl

module _ {Row : Type 0} (gather : List ℕ → Option (List Row)) where
  -- A job of a slot is about what the slot's buffers hold.
  abbrev pub IsKept : Pipe Row → Bool → ℕ → Type 0
  IsKept s b j =
      (j < s.next)
      × ((s.store j).base ≡ b)
      × ((s.store j).n ≡ length (s.ids_t b))
      × ((s.store j).ok ≡ true → gather (s.ids_t b) ≡ some (s.rows_t b))

  pub record Refines (s : Pipe Row) (a : Option (List ℕ)) : Type 0 where
    pub kept_of : (b : Bool) (j : ℕ) → s.jobs b ≡ some j → IsKept s b j
    pub waits_of :
        (j : ℕ)
        → has j (held s.busy s.queue) ≡ true
        → ((s.store j).is_done ≡ false) × (s.jobs (s.store j).base ≡ some j)
    pub once_of : Once (held s.busy s.queue)
    pub read_of : (j : ℕ) (ids : List ℕ) → s.busy ≡ some (j, ids) → ids ≡ s.ids_t (s.store j).base
    pub pending_of :
        (j : ℕ)
        → s.pending ≡ some j
        → (s.jobs (s.store j).base ≡ some j) × (a ≡ some (s.ids_t (s.store j).base))
