-- ===== src/Mamba/Memcpy.antt =====
-- _memcpy_u64_tiled of src/mamba_utils_guarded.py: the byte ranges, as an offset and a length, that
-- one tile copies from the source to the destination. A masked load and store of a block is the
-- range of its lanes that the mask lets through.
mod Cover
mod Exact
mod Examples
use qwen3_8_flash_dgx_auto_r.Common.{
  ℕ, zero, suc, ◌+◌, ◌-◌, ◌*◌, ◌/◌, ◌%◌, min, Bool, true, false, ◌&&◌, ◌||◌, List, [], ◌∷◌, ◌++◌,
  map, ltb, leb, ◌==◌, if◌then◌else◌,
}

abbrev pub Span : Type 0
Span = ℕ × ℕ

-- `tl.cdiv(a, b)`, for a positive `b`.
pub cdiv : ℕ → ℕ → ℕ
cdiv a b = (a + (b - 1)) / b

-- `for i in range(tile_start, tile_end, COPY_BLOCK_SIZE)` in units, on fuel; the mask ends the last
-- block at `tile_end`.
pub block_loop : ℕ → ℕ → ℕ → ℕ → List Span
block_loop zero block i end = []
block_loop (suc fuel) block i end =
    let rest = block_loop fuel block (i + block) end in
    if ltb i end then (i, min block (end - i)) ∷ rest else []

-- The units of one tile, of `count` units in all.
pub tile_spans : ℕ → ℕ → ℕ → ℕ → List Span
unfolding cdiv block_loop
tile_spans block num_tiles tile count =
    let per_tile = cdiv (cdiv count num_tiles) block * block in
    let start = tile * per_tile in block_loop count block start (min (start + per_tile) count)

-- u64 units from `head_bytes` on, as bytes.
pub to_bytes : ℕ → List Span → List Span
to_bytes head_bytes [] = []
to_bytes head_bytes ((i, n) ∷ spans) = (head_bytes + i * 8, n * 8) ∷ to_bytes head_bytes spans

-- `tl.minimum((-dst_addr) & 7, copy_size)`
pub head_size : ℕ → ℕ → ℕ
head_size dst copy_size = min ((8 - dst % 8) % 8) copy_size

-- The branch for the same sub-8-byte alignment.
pub fast_spans : ℕ → ℕ → ℕ → ℕ → ℕ → List Span
unfolding tile_spans to_bytes head_size
fast_spans block num_tiles tile dst copy_size =
    let head_bytes = head_size dst copy_size in
    let body_u64 = (copy_size - head_bytes) / 8 in
    let tail_start = head_bytes + body_u64 * 8 in
    let body = to_bytes head_bytes (tile_spans block num_tiles tile body_u64) in
    if tile == 0
    then (0, head_bytes) ∷ (body ++ (tail_start, copy_size - tail_start) ∷ [])
    else body

-- _memcpy_u64_tiled
pub memcpy_u64_tiled : ℕ → ℕ → ℕ → ℕ → ℕ → ℕ → List Span
unfolding fast_spans
memcpy_u64_tiled block num_tiles tile src dst copy_size =
    if (src % 8) == (dst % 8)
    then fast_spans block num_tiles tile dst copy_size
    else tile_spans block num_tiles tile copy_size

-- The offset is in one of the ranges.
pub is_copied : ℕ → List Span → Bool
is_copied o [] = false
is_copied o ((i, n) ∷ spans) = (leb i o && ltb o (i + n)) || is_copied o spans
