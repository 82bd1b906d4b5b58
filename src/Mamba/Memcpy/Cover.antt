-- ===== src/Mamba/Memcpy/Cover.antt =====
-- The tiles of _memcpy_u64_tiled in src/mamba_utils_guarded.py copy the whole region, and no more.
use qwen3_8_flash_dgx_auto_r.Common.{
  ℕ, zero, suc, ◌+◌, ◌-◌, ◌*◌, ◌/◌, ◌%◌, ◌<◌, ◌≤◌, ◌≡◌, refl, min, true, ◌||◌, List, [], ◌∷◌, ◌++◌,
  arith,
}
use native.Mathlib.Nat.{div-add-mod, mod-lt, mul-le-mul_left, mul_comm, div-lt_iff_lt-mul, mul-zero}
use qwen3_8_flash_dgx_auto_r.Mamba.Memcpy.{Span, cdiv, block_loop, tile_spans, to_bytes, is_copied}

cdiv_covers : (a b : ℕ) → 0 < b → a ≤ cdiv a b * b
unfolding cdiv
cdiv_covers a b h = omega (arith, div-add-mod (a + (b - 1)) b, mod-lt (a + (b - 1)) h)

pub is_copied-append :
    (o : ℕ) (xs ys : List Span) → is_copied o (xs ++ ys) ≡ (is_copied o xs || is_copied o ys)
unfolding is_copied
is_copied-append o [] ys = refl
is_copied-append o ((i, n) ∷ xs) ys = ground (arith, is_copied-append o xs ys)

is_copied-block_loop :
    (fuel block i end o : ℕ)
    → 0 < block
    → i ≤ o
    → o < end
    → end ≤ i + fuel
    → is_copied o (block_loop fuel block i end) ≡ true
unfolding is_copied block_loop
is_copied-block_loop zero block i end o pos from below room = absurd (omega arith)
is_copied-block_loop (suc fuel) block i end o pos from below room =
    ground (arith, is_copied-block_loop fuel block (i + block) end o)

block_loop_inside :
    (fuel block i end o : ℕ)
    → is_copied o (block_loop fuel block i end) ≡ true
    → (i ≤ o) × (o < end)
unfolding is_copied block_loop
block_loop_inside zero block i end o h = cc
block_loop_inside (suc fuel) block i end o h =
    ground (arith, block_loop_inside fuel block (i + block) end o)

pos_of_product : (a b c : ℕ) → c < a * b → 0 < b
pos_of_product a zero c h = absurd (omega (arith, mul-zero a))
pos_of_product a (suc b) c h = omega arith

module _ (block num_tiles : ℕ) where
  per_tile : ℕ → ℕ
  per_tile count = cdiv (cdiv count num_tiles) block * block

  per_tile_covers : (count : ℕ) → 0 < block → 0 < num_tiles → count ≤ num_tiles * per_tile count
  unfolding per_tile
  per_tile_covers count pos some_tile = omega (
    arith,
    cdiv_covers count num_tiles some_tile,
    mul-le-mul_left num_tiles (cdiv_covers (cdiv count num_tiles) block pos),
    mul_comm num_tiles (cdiv count num_tiles),
  )

  -- Each unit belongs to a tile.
  pub tile_spans_cover :
      (count u : ℕ)
      → 0 < block
      → 0 < num_tiles
      → u < count
      → (tile : ℕ) × (tile < num_tiles)
        × (is_copied u (tile_spans block num_tiles tile count) ≡ true)
  unfolding tile_spans per_tile
  tile_spans_cover count u pos some_tile below =
      let size = per_tile count in
      let all : count ≤ num_tiles * size = per_tile_covers count pos some_tile in
      let some_size : 0 < size = pos_of_product num_tiles size u (omega (arith, all, below)) in
      let tile = u / size in
      let whole : size * tile + u % size ≡ u = div-add-mod u size in
      let swap : tile * size ≡ size * tile = mul_comm tile size in
      let rest : u % size < size = mod-lt u some_size in
      (
        tile,
        (div-lt_iff_lt-mul some_size).1 (omega (arith, all, below)),
        is_copied-block_loop count block (tile * size) (min (tile * size + size) count) u pos
            (omega (arith, whole, swap)) (omega (arith, whole, swap, rest, below)) (omega arith),
      )

  pub tile_spans_inside :
      (count tile u : ℕ) → is_copied u (tile_spans block num_tiles tile count) ≡ true → u < count
  unfolding tile_spans per_tile
  tile_spans_inside count tile u h =
      let size = per_tile count in
      let (from, below) =
        block_loop_inside count block (tile * size) (min (tile * size + size) count) u h in
      omega (arith, below)

pub is_copied-to_bytes :
    (head o : ℕ) (spans : List Span)
    → head ≤ o
    → is_copied o (to_bytes head spans) ≡ is_copied ((o - head) / 8) spans
unfolding is_copied to_bytes
is_copied-to_bytes head o [] h = refl
is_copied-to_bytes head o ((i, n) ∷ spans) h = ground (arith, is_copied-to_bytes head o spans h)

pub to_bytes_inside :
    (head o : ℕ) (spans : List Span) → is_copied o (to_bytes head spans) ≡ true → head ≤ o
unfolding is_copied to_bytes
to_bytes_inside head o [] h = cc
to_bytes_inside head o ((i, n) ∷ spans) h = ground (arith, to_bytes_inside head o spans)
