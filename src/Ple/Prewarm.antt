-- ===== src/Ple/Prewarm.antt =====
-- MmapPleTable.prewarm of src/vllm_ple_mmap.py: how much it reads of each file. `readinto` of a file
-- is a parameter: at a position, for a number of bytes, it gives how many it has read. The loop runs
-- on fuel, and `none` is a loop that has used it up.
mod Ends
mod Examples
use qwen3_8_flash_dgx_auto_r.Common.{
  ℕ, zero, suc, ◌+◌, ◌-◌, ◌*◌, min, List, [], ◌∷◌, Option, none, some, ltb, ◌==◌, if◌then◌else◌,
}

-- A mapped shard: its offset, and the shape of the mapping.
pub record Mapping : Type 0 where
  pub offset : ℕ
  pub rows : ℕ
  pub row_bytes : ℕ

abbrev pub Reader : Type 0
Reader = ℕ → ℕ → ℕ

-- `while pos < end`: the file is read on from `at`, where it stands, whatever `pos` is.
pub read_loop : ℕ → Reader → ℕ → ℕ → ℕ → ℕ → Option ℕ
read_loop block readinto end zero at pos = if ltb pos end then none else some at
read_loop block readinto end (suc fuel) at pos =
    let n = readinto at (min block (end - pos)) in
    let rest = read_loop block readinto end fuel (at + n) (pos + n) in
    if ltb pos end then (if n == 0 then some at else rest) else some at

-- One shard; the file is opened at its first byte, and the fuel is the length of the shard.
pub prewarm_shard : ℕ → Reader → Mapping → Option ℕ
unfolding read_loop
prewarm_shard block readinto m =
    let length = m.rows * m.row_bytes in
    read_loop block readinto (m.offset + length) length 0 m.offset

abbrev pub then_all : Option ℕ → Option (List ℕ) → Option (List ℕ)
then_all none rest = none
then_all (some pos) none = none
then_all (some pos) (some all) = some (pos ∷ all)

-- prewarm: how far the file of each shard was read, where there is one.
pub prewarm : ℕ → List (Option (Reader × Mapping)) → Option (List ℕ)
unfolding prewarm_shard
prewarm block [] = some []
prewarm block (none ∷ shards) = prewarm block shards
prewarm block (some (readinto, m) ∷ shards) =
    then_all (prewarm_shard block readinto m) (prewarm block shards)
