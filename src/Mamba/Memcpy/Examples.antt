-- ===== src/Mamba/Memcpy/Examples.antt =====
-- Tests of _memcpy_u64_tiled of src/mamba_utils_guarded.py.
use qwen3_8_flash_dgx_auto_r.Common.{ℕ, ◌<◌, ◌≡◌, ◌↔◌, refl, true, [], ◌∷◌, arith}
use qwen3_8_flash_dgx_auto_r.Mamba.Memcpy.{
  memcpy_u64_tiled, is_copied, fast_spans, head_size, tile_spans, to_bytes, cdiv, block_loop,
}
use qwen3_8_flash_dgx_auto_r.Mamba.Memcpy.Exact.{memcpy_u64_tiled_iff}

-- A head of five bytes, four units for this tile, and a tail of six bytes.
first_tile_test : memcpy_u64_tiled 2 2 0 11 3 67 ≡ (0, 5) ∷ (5, 16) ∷ (21, 16) ∷ (61, 6) ∷ []
unfolding memcpy_u64_tiled fast_spans head_size tile_spans to_bytes cdiv block_loop
first_tile_test = refl

memcpy_u64_tiled_iff_example :
    ((tile : ℕ) × (tile < 2) × (is_copied 40 (memcpy_u64_tiled 2 2 tile 11 3 67) ≡ true))
    ↔ (40 < 67)
memcpy_u64_tiled_iff_example = memcpy_u64_tiled_iff 2 2 11 3 67 40 (omega arith) (omega arith)
