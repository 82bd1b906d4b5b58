-- ===== src/Mamba/Copy/Inside.antt =====
-- The bounds guard of _copy_mamba_state_block in src/mamba_utils_guarded.py.
use qwen3_8_flash_dgx_auto_r.Common.{
  ℕ, zero, suc, ◌+◌, ◌-◌, ◌*◌, ◌<◌, ◌≤◌, ◌≡◌, refl, sym, ap, ◌∙◌, Bool, not, ◌||◌, inl, inr, List,
  [], ◌∷◌, ◌++◌, Option, none, some, ltb, ltb→lt, ◌==◌, All, Bool-cases, arith,
}
use native.Mathlib.Nat.{mul-le-mul_right, add-mul, one-mul}
use qwen3_8_flash_dgx_auto_r.Common.Int.{ℤ, pos, negsuc, add_ℕ}
use qwen3_8_flash_dgx_auto_r.Mamba.Copy.{
  StatePool, Copy, Outcome, idle, guard_hit, copies, valid_id, block_addr, token_bytes, row_copies,
  dim_first_copies, token_copies, dim_first_copy, conv_copy, temporal_copy, checked, conv_branch,
  copy_to, copy_mamba_state_block,
}

pub All-append :
    {A : Type 0} (P : A → Type 0) (xs ys : List A) → All P xs → All P ys → All P (xs ++ ys)
All-append P [] ys p q = q
All-append P (x ∷ xs) ys (h, p) q = (h, All-append P xs ys p q)

valid_id-lt : (num : ℕ) (z : ℤ) (id : ℕ) → valid_id num z ≡ some id → id < num
unfolding valid_id
valid_id-lt num (negsuc n) id h = cc
valid_id-lt num (pos n) id h = ground arith

module _ (p : StatePool) where
  -- The data of a state lies within its block.
  pub record IsLaidOut : Type 0 where
    pub token_fits : token_bytes p ≤ p.block_stride
    pub window_fits : p.conv_width * token_bytes p ≤ p.block_stride
    pub row_fits :
        (row : ℕ)
        → row < p.dim_rows
        → row * p.row_stride + p.conv_width * p.elem_size ≤ p.block_stride

  pub IsLaidOut-intro :
      p.inner_size * p.elem_size ≤ p.block_stride
      → p.conv_width * (p.inner_size * p.elem_size) ≤ p.block_stride
      → ((row : ℕ)
          → row < p.dim_rows
          → row * p.row_stride + p.conv_width * p.elem_size ≤ p.block_stride)
      → IsLaidOut
  unfolding token_bytes
  IsLaidOut-intro h k r = record { token_fits = h; window_fits = k; row_fits = r }

  abbrev pub pool_end : ℕ
  pool_end = p.base_addr + p.num_blocks * p.block_stride

  -- Both ranges are within the pool of the state.
  abbrev pub IsInside : Copy → Type 0
  IsInside c =
      (p.base_addr ≤ c.src)
      × (c.src + c.size ≤ pool_end)
      × (p.base_addr ≤ c.dst)
      × (c.dst + c.size ≤ pool_end)

  abbrev pub AreInside : Outcome → Type 0
  AreInside idle = Unit
  AreInside guard_hit = Unit
  AreInside (copies cs) = All IsInside cs

  block_ends :
      (id offset size : ℕ)
      → id < p.num_blocks
      → offset + size ≤ p.block_stride
      → (p.base_addr ≤ block_addr p id + offset) × (block_addr p id + offset + size ≤ pool_end)
  unfolding block_addr
  block_ends id offset size valid fits =
      let last : (id + 1) * p.block_stride ≤ p.num_blocks * p.block_stride =
        mul-le-mul_right p.block_stride (omega arith) in
      let next : (id + 1) * p.block_stride ≡ id * p.block_stride + 1 * p.block_stride =
        add-mul id 1 p.block_stride in
      (omega arith, omega (arith, last, next, one-mul p.block_stride))

  module _ (laid : IsLaidOut) (src_id dst_id bias : ℕ) (src_ok : src_id < p.num_blocks)
      (dst_ok : dst_id < p.num_blocks) where
    abbrev src_addr : ℕ
    src_addr = block_addr p src_id

    abbrev dst_addr : ℕ
    dst_addr = block_addr p dst_id

    -- A copy at an offset of each of the two blocks.
    IsInside-at :
        (from to size : ℕ)
        → from + size ≤ p.block_stride
        → to + size ≤ p.block_stride
        → IsInside (record { src = src_addr + from; dst = dst_addr + to; size = size })
    IsInside-at from to size h g =
        let (s, s') = block_ends src_id from size src_ok h in
        let (d, d') = block_ends dst_id to size dst_ok g in (s, s', d, d')

    -- `n` units of `unit` bytes end before `m` of them do.
    unit_ends : (n m unit : ℕ) → n < m → n * unit + unit ≤ m * unit
    unit_ends n m unit lt =
        let last : (n + 1) * unit ≤ m * unit = mul-le-mul_right unit (omega arith) in
        omega (arith, last, add-mul n 1 unit, one-mul unit)

    row_copies-IsInside :
        (token row n : ℕ)
        → token + bias < p.conv_width
        → row + n ≤ p.dim_rows
        → All IsInside (row_copies p src_addr dst_addr bias token row n)
    unfolding row_copies
    row_copies-IsInside token row zero lt rows = tt
    row_copies-IsInside token row (suc n) lt rows =
        let fits = laid.row_fits row (omega (arith, rows)) in
        let from : (token + bias) * p.elem_size + p.elem_size ≤ p.conv_width * p.elem_size =
          unit_ends (token + bias) p.conv_width p.elem_size lt in
        let to : token * p.elem_size + p.elem_size ≤ p.conv_width * p.elem_size =
          unit_ends token p.conv_width p.elem_size (omega (arith, lt)) in
        let (s, s', d, d') =
          IsInside-at (row * p.row_stride + (token + bias) * p.elem_size)
            (row * p.row_stride + token * p.elem_size) p.elem_size (omega (arith, fits, from))
            (omega (arith, fits, to)) in
        (
          (omega (arith, s), omega (arith, s'), omega (arith, d), omega (arith, d')),
          row_copies-IsInside token (row + 1) n lt (omega (arith, rows)),
        )

    dim_first_copies-IsInside :
        (token n : ℕ)
        → token + n + bias ≤ p.conv_width
        → All IsInside (dim_first_copies p src_addr dst_addr bias token n)
    unfolding dim_first_copies
    dim_first_copies-IsInside token zero room = tt
    dim_first_copies-IsInside token (suc n) room =
        All-append IsInside (row_copies p src_addr dst_addr bias token 0 p.dim_rows) _
          (row_copies-IsInside token 0 p.dim_rows (omega (arith, room)) (omega arith))
          (dim_first_copies-IsInside (token + 1) n (omega (arith, room)))

    token_copies-IsInside :
        (token n : ℕ)
        → token + n + bias ≤ p.conv_width
        → All IsInside (token_copies p src_addr dst_addr bias token n)
    unfolding token_copies
    token_copies-IsInside token zero room = tt
    token_copies-IsInside token (suc n) room =
        let bytes = token_bytes p in
        let from : (token + bias) * bytes + bytes ≤ p.conv_width * bytes =
          unit_ends (token + bias) p.conv_width bytes (omega (arith, room)) in
        let to : token * bytes + bytes ≤ p.conv_width * bytes =
          unit_ends token p.conv_width bytes (omega (arith, room)) in
        (
          IsInside-at ((token + bias) * bytes) (token * bytes) bytes
              (omega (arith, laid.window_fits, from)) (omega (arith, laid.window_fits, to)),
          token_copies-IsInside (token + 1) n (omega (arith, room)),
        )

    window-IsInside :
        bias ≤ p.conv_width
        → IsInside (record {
          src = src_addr + bias * token_bytes p;
          dst = dst_addr;
          size = (p.conv_width - bias) * token_bytes p;
        })
    window-IsInside room =
        let n = p.conv_width - bias in
        let bytes = token_bytes p in
        let whole : bias * bytes + n * bytes ≡ p.conv_width * bytes =
          sym (add-mul bias n bytes) ∙ ap (λ k. k * bytes) (omega arith) in
        let (s, s', d, d') =
          IsInside-at (bias * bytes) 0 (n * bytes) (omega (arith, whole, laid.window_fits))
            (omega (arith, whole, laid.window_fits)) in
        (s, s', omega (arith, d), omega (arith, d'))

    conv_copy-inside : bias ≤ p.conv_width → AreInside (conv_copy p src_id dst_id bias)
    unfolding conv_copy
    conv_copy-inside room = elim (Bool-cases (not (src_id == dst_id) || (bias == 0))) [
      | inl e ↦ rw e (window-IsInside room, tt)
      | inr e ↦ rw e (token_copies-IsInside 0 (p.conv_width - bias) (omega (arith, room)))
    ]

    dim_first_copy-inside : bias ≤ p.conv_width → AreInside (dim_first_copy p src_id dst_id bias)
    unfolding dim_first_copy
    dim_first_copy-inside room =
        dim_first_copies-IsInside 0 (p.conv_width - bias) (omega (arith, room))

    temporal_copy-inside : AreInside (temporal_copy p src_id dst_id)
    unfolding temporal_copy
    temporal_copy-inside =
        let (s, s', d, d') =
          IsInside-at 0 0 (token_bytes p) (omega (arith, laid.token_fits))
            (omega (arith, laid.token_fits)) in
        ((omega (arith, s), omega (arith, s'), omega (arith, d), omega (arith, d')), tt)

  checked-inside :
      (o : Option ℕ) (copy : ℕ → Outcome)
      → ((id : ℕ) → o ≡ some id → AreInside (copy id))
      → AreInside (checked p o copy)
  unfolding checked
  checked-inside none copy h = tt
  checked-inside (some id) copy h = h id refl

  module _ (laid : IsLaidOut) (dim_first : Bool) (table : ℤ → ℤ) (src_col : ℤ)
      (bias tile dst_id : ℕ) (room : 0 < p.conv_width → bias ≤ p.conv_width)
      (dst_ok : dst_id < p.num_blocks) where
    conv_branch-inside :
        (src_id : ℕ)
        → src_id < p.num_blocks
        → 0 < p.conv_width
        → AreInside (conv_branch p dim_first dst_id bias src_id)
    unfolding conv_branch
    conv_branch-inside src_id src_ok conv = elim (Bool-cases dim_first) [
      | inl e ↦ rw e (dim_first_copy-inside laid src_id dst_id bias src_ok dst_ok (room conv))
      | inr e ↦ rw e (conv_copy-inside laid src_id dst_id bias src_ok dst_ok (room conv))
    ]

    copy_to-inside : AreInside (copy_to p dim_first table src_col bias tile dst_id)
    unfolding copy_to
    copy_to-inside = elim (Bool-cases (ltb 0 p.conv_width)) [
      | inl conv ↦ elim (Bool-cases (ltb 0 tile)) [
        | inl later ↦ rw (conv, later) tt
        | inr first ↦
            rw (conv, first)
              (checked-inside (valid_id p.num_blocks (table src_col))
                (conv_branch p dim_first dst_id bias)
                (λ src_id s.
                  conv_branch-inside src_id (valid_id-lt p.num_blocks (table src_col) src_id s)
                    (ltb→lt 0 p.conv_width conv)))
      ]
      | inr temporal ↦ rw temporal (
          checked-inside (valid_id p.num_blocks (table (add_ℕ src_col bias)))
            (λ src_id. temporal_copy p src_id dst_id)
            (λ src_id s.
              temporal_copy-inside laid src_id dst_id bias
                (valid_id-lt p.num_blocks (table (add_ℕ src_col bias)) src_id s) dst_ok))
    ]

  -- When the state is laid out within its blocks and a conv state is shifted by no more than its
  -- width, every byte that _copy_mamba_state_block reads or writes lies in the pool of the state,
  -- whatever block ids the table has.
  pub copy_mamba_state_block-inside :
      (dim_first : Bool) (table : ℤ → ℤ) (src_col dst_col : ℤ) (bias tile : ℕ)
      → IsLaidOut
      → (0 < p.conv_width → bias ≤ p.conv_width)
      → AreInside (copy_mamba_state_block p dim_first table src_col dst_col bias tile)
  unfolding copy_mamba_state_block
  copy_mamba_state_block-inside dim_first table src_col dst_col bias tile laid room =
      checked-inside (valid_id p.num_blocks (table dst_col))
        (copy_to p dim_first table src_col bias tile)
        (λ dst_id d.
          copy_to-inside laid dim_first table src_col bias tile dst_id room
            (valid_id-lt p.num_blocks (table dst_col) dst_id d))
