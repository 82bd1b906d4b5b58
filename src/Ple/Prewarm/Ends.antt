-- ===== src/Ple/Prewarm/Ends.antt =====
-- How far prewarm of src/vllm_ple_mmap.py reads.
use qwen3_8_flash_dgx_auto_r.Common.{
  ℕ, ap, ◌∙◌, zero, suc, ◌+◌, ◌-◌, ◌*◌, ◌≤◌, ◌<◌, ◌≡◌, ◌⊎◌, refl, true, false, min, List, [], ◌∷◌,
  Option, none, some, All, ltb, ◌==◌, inl, inr, Bool-cases, arith,
}
use native.Mathlib.Nat.{add-zero}
use qwen3_8_flash_dgx_auto_r.Ple.Prewarm.{Mapping, Reader, read_loop, prewarm_shard, prewarm}

-- A reader gives no more than it is asked for.
abbrev pub IsBounded : Reader → Type 0
IsBounded readinto = (pos n : ℕ) → readinto pos n ≤ n

module _ (block : ℕ) (readinto : Reader) (length : ℕ) where
  -- The reads stopped at byte `at` of the file: at this length, or where there was no more.
  abbrev pub Stops : ℕ → Type 0
  Stops at = (at ≤ length) × ((at ≡ length) ⊎ (readinto at (min block (length - at)) ≡ 0))

  read_loop_round :
      (start fuel at : ℕ)
      → ltb (start + at) (start + length) ≡ true
      → (readinto at (min block (start + length - (start + at))) == 0) ≡ false
      → read_loop block readinto (start + length) (suc fuel) at (start + at)
        ≡ read_loop block readinto
            (start + length)
            fuel
            (at + readinto at (min block (start + length - (start + at))))
            (start + at + readinto at (min block (start + length - (start + at))))
  unfolding read_loop
  read_loop_round start fuel at more wet = rw (more, wet) refl

  -- A round that reads some bytes.
  read_loop_more :
      (start fuel at : ℕ)
      → ltb (start + at) (start + length) ≡ true
      → (readinto at (min block (length - at)) == 0) ≡ false
      → read_loop block readinto (start + length) (suc fuel) at (start + at)
        ≡ read_loop block readinto
            (start + length)
            fuel
            (at + readinto at (min block (length - at)))
            (start + (at + readinto at (min block (length - at))))
  read_loop_more start fuel at more wet =
      let left : start + length - (start + at) ≡ length - at = omega arith in
      let wet' : (readinto at (min block (start + length - (start + at))) == 0) ≡ false =
        ap (λ n. readinto at (min block n) == 0) left ∙ wet in
      read_loop_round start fuel at more wet'
      ∙ ap
          (λ n.
            read_loop block readinto (start + length) fuel (at + readinto at (min block n))
              (start + at + readinto at (min block n)))
          left
      ∙ ap
          (read_loop block readinto (start + length) fuel
            (at + readinto at (min block (length - at))))
          (omega arith)

  read_loop-Stops :
      (start fuel at : ℕ)
      → IsBounded readinto
      → at ≤ length
      → length ≤ at + fuel
      → (last : ℕ) × (read_loop block readinto (start + length) fuel at (start + at) ≡ some last)
        × Stops last
  unfolding read_loop
  read_loop-Stops start zero at bounded le enough =
      let over : ltb (start + at) (start + length) ≡ false = ground (arith, enough) in
      (at, rw over refl, (le, inl (omega (arith, le, enough))))
  read_loop-Stops start (suc fuel) at bounded le enough =
      let left : start + length - (start + at) ≡ length - at = omega arith in
      elim (Bool-cases (ltb (start + at) (start + length))) [
        | inr over ↦ (at, rw over refl, (le, inl (ground (arith, over, le))))
        | inl more ↦ elim (Bool-cases (readinto at (min block (length - at)) == 0)) [
          | inl dry ↦ (at, rw (more, left, dry) refl, (le, inr (ground (arith, dry))))
          | inr wet ↦
              let n = readinto at (min block (length - at)) in
              let some_read : 0 < n = ground (arith, wet) in
              let (last, run, stops) =
                read_loop-Stops start fuel (at + n) bounded
                  (ground (arith, bounded at (min block (length - at)), le, more))
                  (omega (arith, enough, some_read)) in
              (last, read_loop_more start fuel at more wet ∙ run, stops)
        ]
      ]

-- Each shard that there is, with how far its file was read.
pub AllStop : ℕ → List (Option (Reader × Mapping)) → List ℕ → Type 0
AllStop block [] ends = ends ≡ []
AllStop block (none ∷ shards) ends = AllStop block shards ends
AllStop block (some (readinto, m) ∷ shards) ends =
    (at : ℕ) × (rest : List ℕ) × (ends ≡ at ∷ rest)
    × Stops block readinto (m.rows * m.row_bytes) at
    × AllStop block shards rest

abbrev pub ReaderIsBounded : Option (Reader × Mapping) → Type 0
ReaderIsBounded none = Unit
ReaderIsBounded (some (readinto, m)) = IsBounded readinto

-- With readers that give no more bytes than they are asked for, prewarm ends. Of the file of each
-- shard that there is it has read from the first byte on, as many bytes as the shard has, or up to a
-- position where the file gave no more; the offset of the shard does not enter.
pub prewarm-AllStop :
    (block : ℕ) (shards : List (Option (Reader × Mapping)))
    → All ReaderIsBounded shards
    → (ends : List ℕ) × (prewarm block shards ≡ some ends) × AllStop block shards ends
unfolding prewarm prewarm_shard AllStop
prewarm-AllStop block [] ok = ([], refl, refl)
prewarm-AllStop block (none ∷ shards) (ok, oks) = prewarm-AllStop block shards oks
prewarm-AllStop block (some (readinto, m) ∷ shards) (ok, oks) =
    let length = m.rows * m.row_bytes in
    let (at, run, stops) =
      read_loop-Stops block readinto length m.offset length 0 ok (omega arith) (omega arith) in
    let run' : read_loop block readinto (m.offset + length) length 0 m.offset ≡ some at =
      rw (add-zero m.offset) at run in
    let (rest, runs, all) = prewarm-AllStop block shards oks in
    (at ∷ rest, rw (run', runs) refl, (at, rest, refl, stops, all))
