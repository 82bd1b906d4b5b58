-- ===== src/Mamba/Layout/Fits.antt =====
-- What _populate_metadata of src/mamba_utils_guarded.py records of one tensor.
use qwen3_8_flash_dgx_auto_r.Common.{
  ℕ, ◌+◌, ◌-◌, ◌*◌, ◌≤◌, ◌<◌, ◌≡◌, refl, subst, Bool, true, false, some, ltb, ◌==◌, length,
  Bool-cases, if-some, some_injective, inl, inr, arith,
}
use native.Mathlib.Nat.{mul-le-mul_right, mul_assoc, add-mul, one-mul}
use qwen3_8_flash_dgx_auto_r.Mamba.Copy.{StatePool}
use qwen3_8_flash_dgx_auto_r.Mamba.Copy.Inside.{IsLaidOut, IsLaidOut-intro}
use qwen3_8_flash_dgx_auto_r.Mamba.Layout.{
  Tensor, CopyFunc, conv, temporal, other, numel, nth, inner_numel, has_blocks, base_pool,
  conv_pool, temporal_pool, state_pool,
}

-- What torch and the cache allocator see to: the elements of a block lie before the next block. The
-- last dimension of a dim-first conv state is contiguous, and so are the rows of the other layout.
unfoldable pub IsStrided : Bool → CopyFunc → Tensor → Type 0
unfolding nth inner_numel numel
IsStrided true conv t =
    (0 < nth t.shape 1)
    × (0 < nth t.shape 2)
    × ((nth t.shape 1 - 1) * nth t.strides 1 + nth t.shape 2 ≤ nth t.strides 0)
IsStrided false conv t = (0 < nth t.shape 1) × (nth t.shape 1 * nth t.strides 1 ≤ nth t.strides 0)
IsStrided dim_first temporal t =
    (ltb 1 (length t.shape) ≡ true → inner_numel t.shape ≤ nth t.strides 0)
    × (ltb 1 (length t.shape) ≡ false → 0 < numel t.shape)
IsStrided dim_first other t = Unit

-- Elements as bytes.
scaled : (a b size : ℕ) → a ≤ b → a * size ≤ b * size
scaled a b size h = mul-le-mul_right size h

has_blocks-3 : (t : Tensor) → (length t.shape == 3) ≡ true → has_blocks t ≡ true
unfolding has_blocks
has_blocks-3 t e = ground (arith, e)

-- Rows of `len` elements, at `stride`: each ends before the block does.
row_ends :
    (rows row stride len block size : ℕ)
    → row < rows
    → (rows - 1) * stride + len ≤ block
    → row * (stride * size) + len * size ≤ block * size
row_ends rows row stride len block size lt fits =
    let before : row * stride ≤ (rows - 1) * stride = mul-le-mul_right stride (omega (arith, lt)) in
    let bytes : (row * stride + len) * size ≤ block * size =
      mul-le-mul_right size (omega (arith, before, fits)) in
    omega (arith, bytes, add-mul (row * stride) len size, mul_assoc row stride size)

-- One of `n` units is no longer than all of them.
unit-le-all : (n unit : ℕ) → 0 < n → unit ≤ n * unit
unit-le-all n unit h =
    let one : 1 * unit ≤ n * unit = mul-le-mul_right unit h in omega (arith, one, one-mul unit)

module _ (t : Tensor) (blocks : has_blocks t ≡ true) where
  stride_bytes : (base_pool t).block_stride ≡ nth t.strides 0 * t.element_size
  unfolding base_pool
  stride_bytes = rw blocks refl

  conv_rows-IsLaidOut : IsStrided false conv t → IsLaidOut (conv_pool false t)
  unfolding conv_pool base_pool IsStrided
  conv_rows-IsLaidOut (some_rows, fits) =
      let width = nth t.shape 1 in
      let row = nth t.strides 1 in
      let all : width * (row * t.element_size) ≤ nth t.strides 0 * t.element_size =
        subst (λ n. n ≤ nth t.strides 0 * t.element_size) (mul_assoc width row t.element_size)
          (scaled (width * row) (nth t.strides 0) t.element_size fits) in
      IsLaidOut-intro (conv_pool false t)
        (rw stride_bytes (omega (arith, all, unit-le-all width (row * t.element_size) some_rows)))
        (rw stride_bytes all) (λ r lt. absurd (omega (arith, lt)))

  conv_dims-IsLaidOut : IsStrided true conv t → IsLaidOut (conv_pool true t)
  unfolding conv_pool base_pool IsStrided
  conv_dims-IsLaidOut (some_rows, some_len, fits) =
      let size = t.element_size in
      let len = nth t.shape 2 in
      let row : len * size ≤ nth t.strides 0 * size =
        scaled len (nth t.strides 0) size (omega (arith, fits)) in
      let one : 1 * size ≡ size = one-mul size in
      IsLaidOut-intro (conv_pool true t)
        (rw stride_bytes (omega (arith, row, one, unit-le-all len size some_len)))
        (rw stride_bytes (rw one row))
        (λ r lt.
          rw stride_bytes
            (row_ends (nth t.shape 1) r (nth t.strides 1) len (nth t.strides 0) size lt fits))

temporal-IsLaidOut :
    (dim_first : Bool) (t : Tensor) → IsStrided dim_first temporal t → IsLaidOut (temporal_pool t)
unfolding temporal_pool base_pool IsStrided has_blocks
temporal-IsLaidOut dim_first t h =
    IsLaidOut-intro (temporal_pool t)
      (elim (Bool-cases (ltb 1 (length t.shape))) [
        | inl e ↦ rw e (scaled (inner_numel t.shape) (nth t.strides 0) t.element_size (h.0 e))
        | inr e ↦ rw e (scaled 1 (numel t.shape) t.element_size (h.1 e))
      ])
      (omega arith) (λ r lt. absurd (omega (arith, lt)))

pub state_pool-IsLaidOut :
    (dim_first : Bool) (f : CopyFunc) (t : Tensor) (p : StatePool)
    → IsStrided dim_first f t
    → state_pool dim_first f t ≡ some p
    → IsLaidOut p
unfolding state_pool
state_pool-IsLaidOut true conv t p h e =
    let (three, same) = if-some (length t.shape == 3) (conv_pool true t) p e in
    subst IsLaidOut same (conv_dims-IsLaidOut t (has_blocks-3 t three) h)
state_pool-IsLaidOut false conv t p h e =
    let (three, same) = if-some (length t.shape == 3) (conv_pool false t) p e in
    subst IsLaidOut same (conv_rows-IsLaidOut t (has_blocks-3 t three) h)
state_pool-IsLaidOut dim_first temporal t p h e =
    subst IsLaidOut (some_injective e) (temporal-IsLaidOut dim_first t h)
state_pool-IsLaidOut dim_first other t p h e = cc
