-- ===== src/Gptq/Examples.antt =====
-- Tests of the packed GPTQ layout, with the numbers of tools/quantize_mtp_experts_int4.py.
use qwen3_8_flash_dgx_auto_r.Common.{ℕ, ◌≡◌, refl, List, [], ◌∷◌, arith}
use qwen3_8_flash_dgx_auto_r.Gptq.{pack_word, shift_left, pack_column, unpack_column}
use qwen3_8_flash_dgx_auto_r.Gptq.Roundtrip.{unpack_column-pack_column}

-- Seven in each nibble, as in the zero points.
sevens : pack_word 4 0 (7 ∷ 7 ∷ 7 ∷ 7 ∷ 7 ∷ 7 ∷ 7 ∷ 7 ∷ []) ≡ 2004318071
unfolding pack_word shift_left
sevens = refl

abbrev column : List ℕ
column = 0 ∷ 15 ∷ 8 ∷ 7 ∷ 1 ∷ 2 ∷ 3 ∷ 15 ∷ []

unpack_column-pack_column_example : unpack_column 4 8 (pack_column 4 8 1 column) ≡ column
unpack_column-pack_column_example = unpack_column-pack_column 4 8 1 column (omega arith) refl (
  omega arith,
  (
    omega arith,
    (omega arith, (omega arith, (omega arith, (omega arith, (omega arith, (omega arith, tt)))))),
  ),
)
