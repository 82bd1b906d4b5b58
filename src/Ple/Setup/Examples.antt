-- ===== src/Ple/Setup/Examples.antt =====
-- Tests of _setup_table of src/vllm_ple_mmap.py, on two shard files for a vocabulary of three.
use qwen3_8_flash_dgx_auto_r.Common.{
  ℕ, zero, suc, ◌+◌, length, ◌≡◌, refl, List, [], ◌∷◌, some, map, true, false, arith, ℕ_discrete,
  elem,
}
use qwen3_8_flash_dgx_auto_r.Common.Int.{pos}
use qwen3_8_flash_dgx_auto_r.Ple.Table.{MmapPleTable, ok, gather}
use qwen3_8_flash_dgx_auto_r.Ple.Table.Sorting.{sorting}
use qwen3_8_flash_dgx_auto_r.Ple.Setup.{
  ShardHeader, Shards, Setup, SetupFault, setup_table, open_table, ceil_div, have_expected,
  expected_rows, range_from, difference,
}
use qwen3_8_flash_dgx_auto_r.Ple.Setup.Serve.{AreRowsOf, setup_table-gather}

abbrev header : ShardHeader
header = record {
  cols = 8;
  item_bytes = 1;
  is_supported = true;
  is_fp8 = true;
  has_scale = true;
  has_buffer = false;
}

-- A file, by its first row: its rows are numbered from there on.
abbrev memmap : ℕ → ℕ → ℕ → List ℕ
memmap at rows row_bytes = range_from at rows

abbrev files : Shards ℕ
files = (1, record { at = 12; rows = 1 }) ∷ (0, record { at = 10; rows = 2 }) ∷ []

abbrev opened : MmapPleTable ℕ
opened = open_table memmap files 2 8 2 1

accepts_files : setup_table memmap 3 2 8 header 2 1 files ≡ Setup.table opened
unfolding setup_table ceil_div have_expected expected_rows range_from difference elem ℕ_discrete
accepts_files = refl

refuses_short_file : setup_table memmap 4 2 8 header 2 1 files ≡ Setup.refused SetupFault.wrong_rows
unfolding setup_table ceil_div have_expected expected_rows range_from difference elem ℕ_discrete
refuses_short_file = refl

length-range_from : (i n : ℕ) → length (range_from i n) ≡ n
unfolding range_from
length-range_from i zero = refl
length-range_from i (suc n) = ground (arith, length-range_from (i + 1) n)

setup_table-gather_example :
    (rows : List ℕ) × AreRowsOf memmap 3 2 8 header 2 1 files opened (λ k. 8) (2 ∷ 0 ∷ 2 ∷ []) rows
    × (gather opened sorting (map pos (2 ∷ 0 ∷ 2 ∷ [])) true ≡ ok (map some rows))
setup_table-gather_example =
    setup_table-gather memmap 3 2 8 header 2 1 files opened (λ k. 8) (omega arith)
      (λ at rows bytes. length-range_from at rows) (λ k h. refl) sorting (2 ∷ 0 ∷ 2 ∷ []) true
      (omega arith) accepts_files (omega arith, (omega arith, (omega arith, tt)))
