-- ===== src/Mamba/Memcpy/Exact.antt =====
-- _memcpy_u64_tiled of src/mamba_utils_guarded.py as a whole: head, body and tail of all tiles.
use qwen3_8_flash_dgx_auto_r.Common.{
  ℕ, ◌+◌, ◌-◌, ◌*◌, ◌/◌, ◌%◌, ◌<◌, ◌≤◌, ◌≡◌, ◌↔◌, refl, sym, ap, ◌∙◌, true, false, ◌&&◌, ◌||◌, inl,
  inr, List, [], ◌∷◌, ◌++◌, ltb, leb, ltb→lt, ◌==◌, ==_iff, Bool-cases, arith,
}
use qwen3_8_flash_dgx_auto_r.Mamba.Memcpy.{
  Span, tile_spans, to_bytes, head_size, fast_spans, memcpy_u64_tiled, is_copied,
}
use qwen3_8_flash_dgx_auto_r.Mamba.Memcpy.Cover.{
  is_copied-append, tile_spans_cover, tile_spans_inside, is_copied-to_bytes, to_bytes_inside,
}

module _ (block num_tiles dst size : ℕ) where
  head : ℕ
  head = head_size dst size

  body : ℕ
  body = (size - head) / 8

  body_spans : ℕ → List Span
  body_spans tile = to_bytes head (tile_spans block num_tiles tile body)

  last_span : Span
  last_span = (head + body * 8, size - (head + body * 8))

  head_le : head ≤ size
  unfolding head head_size
  head_le = omega arith

  first_tile : fast_spans block num_tiles 0 dst size ≡ (0, head) ∷ (body_spans 0 ++ last_span ∷ [])
  unfolding fast_spans head body body_spans last_span
  first_tile = refl

  other_tile :
      (tile : ℕ) → (tile == 0) ≡ false → fast_spans block num_tiles tile dst size ≡ body_spans tile
  unfolding fast_spans head body body_spans
  other_tile tile e = rw e refl

  first_tile_iff :
      (o : ℕ)
      → is_copied o (fast_spans block num_tiles 0 dst size)
        ≡ (ltb o head || (is_copied o (body_spans 0) || (leb (head + body * 8) o && ltb o size)))
  unfolding is_copied last_span
  first_tile_iff o =
      rw (first_tile, is_copied-append o (body_spans 0) (last_span ∷ [])) (ground (arith, head_le))

  in_body :
      (tile o : ℕ)
      → is_copied o (body_spans tile) ≡ true
      → is_copied o (fast_spans block num_tiles tile dst size) ≡ true
  in_body tile o h = elim (Bool-cases (tile == 0)) [
    | inl e ↦
        let zero_tile : tile ≡ 0 = (==_iff tile 0).0 e in
        ap (λ n. is_copied o (fast_spans block num_tiles n dst size)) zero_tile
        ∙ first_tile_iff o
        ∙ ground (arith, ap (λ n. is_copied o (body_spans n)) zero_tile, h)
    | inr e ↦ ap (is_copied o) (other_tile tile e) ∙ h
  ]

  fast_cover :
      0 < block
      → 0 < num_tiles
      → (o : ℕ) → o < size
      → (tile : ℕ) × (tile < num_tiles)
        × (is_copied o (fast_spans block num_tiles tile dst size) ≡ true)
  unfolding body_spans
  fast_cover pos some_tile o below = elim (Bool-cases (ltb o head)) [
    | inl e ↦ (0, some_tile, first_tile_iff o ∙ ground (arith, e))
    | inr past ↦ elim (Bool-cases (ltb ((o - head) / 8) body)) [
      | inl e ↦
          let (tile, lt, there) =
            tile_spans_cover block num_tiles body ((o - head) / 8) pos some_tile (ltb→lt _ _ e) in
          let after : head ≤ o = ground (arith, past) in
          (tile, lt, in_body tile o (is_copied-to_bytes head o _ after ∙ there))
      | inr e ↦
          let tail : leb (head + body * 8) o ≡ true = ground (arith, e, past) in
          (0, some_tile, first_tile_iff o ∙ ground (arith, tail, below))
    ]
  ]

  body_inside : (tile o : ℕ) → is_copied o (body_spans tile) ≡ true → o < size
  unfolding body_spans body
  body_inside tile o h =
      let after : head ≤ o = to_bytes_inside head o _ h in
      let unit : (o - head) / 8 < (size - head) / 8 =
        tile_spans_inside block num_tiles body tile ((o - head) / 8)
          (sym (is_copied-to_bytes head o _ after) ∙ h) in
      omega (arith, after, unit)

  fast_inside :
      (tile o : ℕ) → is_copied o (fast_spans block num_tiles tile dst size) ≡ true → o < size
  fast_inside tile o h = elim (Bool-cases (tile == 0)) [
    | inl e ↦
        let first : is_copied o (fast_spans block num_tiles 0 dst size) ≡ true =
          ap (λ n. is_copied o (fast_spans block num_tiles n dst size)) (sym ((==_iff tile 0).0 e))
          ∙ h in
        let split = sym (first_tile_iff o) ∙ first in
        ground (arith, split, body_inside 0 o, head_le)
    | inr e ↦ body_inside tile o (ap (is_copied o) (sym (other_tile tile e)) ∙ h)
  ]

-- For a positive block and number of tiles: an offset is copied by some tile exactly when it is
-- below the size, whether the two addresses have the same alignment or not.
pub memcpy_u64_tiled_iff :
    (block num_tiles src dst size o : ℕ)
    → 0 < block
    → 0 < num_tiles
    → ((tile : ℕ) × (tile < num_tiles)
        × (is_copied o (memcpy_u64_tiled block num_tiles tile src dst size) ≡ true))
      ↔ (o < size)
unfolding memcpy_u64_tiled
memcpy_u64_tiled_iff block num_tiles src dst size o pos some_tile =
    elim (Bool-cases ((src % 8) == (dst % 8))) [
      | inl e ↦ rw e (
        λ (tile, lt, h). fast_inside block num_tiles dst size tile o h,
        λ h. fast_cover block num_tiles dst size pos some_tile o h,
      )
      | inr e ↦ rw e (
        λ (tile, lt, h). tile_spans_inside block num_tiles size tile o h,
        λ h. tile_spans_cover block num_tiles size o pos some_tile h,
      )
    ]
