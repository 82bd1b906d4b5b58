-- ===== src/Mamba/Layout/Memory.antt =====
-- Which tensor a state of the metadata of src/mamba_utils_guarded.py is, and the memory of it.
use qwen3_8_flash_dgx_auto_r.Common.{
  ℕ, zero, suc, ◌+◌, ◌*◌, ◌≤◌, ◌≡◌, refl, sym, subst, Bool, true, false, List, [], ◌∷◌, ◌++◌, some,
  ltb, ◌==◌, if◌then◌else◌, length, get_elem?, All, if-some, inl, inr, Bool-cases, some_injective,
  arith, if-option, Option, none,
}
use native.Mathlib.Nat.{mul_assoc, one-mul}
use qwen3_8_flash_dgx_auto_r.Mamba.Copy.{StatePool, Copy, Outcome, idle, guard_hit, copies}
use qwen3_8_flash_dgx_auto_r.Mamba.Copy.Inside.{IsInside, AreInside}
use qwen3_8_flash_dgx_auto_r.Mamba.Layout.{
  state_entries, layer_entries, group_entries, Layer, prepend, join, Tensor, CopyFunc, conv,
  temporal, other, Entry, numel, nth, has_blocks, base_pool, conv_pool, temporal_pool, state_pool,
}

-- The bytes from the start of a tensor to the end of its last block.
pub memory_size : Tensor → ℕ
unfolding numel nth
memory_size t =
    if ltb 1 (length t.shape)
    then nth t.shape 0 * nth t.strides 0 * t.element_size
    else numel t.shape * t.element_size

-- Both ranges of a copy lie in the memory of a tensor.
abbrev pub IsWithin : Tensor → Copy → Type 0
IsWithin t c =
    (t.data_ptr ≤ c.src)
    × (c.src + c.size ≤ t.data_ptr + memory_size t)
    × (t.data_ptr ≤ c.dst)
    × (c.dst + c.size ≤ t.data_ptr + memory_size t)

abbrev pub AreWithin : Tensor → Outcome → Type 0
AreWithin t idle = Unit
AreWithin t guard_hit = Unit
AreWithin t (copies cs) = All (IsWithin t) cs

-- The state tensors of the layers of the groups, in order.
abbrev pub layer_tensors : List Layer → List Tensor
layer_tensors [] = []
layer_tensors (l ∷ ls) = l.kv_cache ++ layer_tensors ls

abbrev pub group_tensors : List (List Layer) → List Tensor
group_tensors [] = []
group_tensors (ls ∷ groups) = layer_tensors ls ++ group_tensors groups

-- The pool of a state covers the memory of a tensor, and no other.
abbrev pub Covers : StatePool → Tensor → Type 0
Covers p t = (p.base_addr ≡ t.data_ptr) × (p.num_blocks * p.block_stride ≡ memory_size t)

base_pool-Covers : (t : Tensor) → Covers (base_pool t) t
unfolding base_pool memory_size has_blocks
base_pool-Covers t = (
  refl,
  elim (Bool-cases (ltb 1 (length t.shape))) [
    | inl e ↦ rw e (sym (mul_assoc (nth t.shape 0) (nth t.strides 0) t.element_size))
    | inr e ↦ rw e (one-mul (numel t.shape * t.element_size))
  ],
)

pub state_pool-Covers :
    (dim_first : Bool) (f : CopyFunc) (t : Tensor) (p : StatePool)
    → state_pool dim_first f t ≡ some p
    → Covers p t
unfolding state_pool conv_pool temporal_pool
state_pool-Covers true conv t p e =
    let (three, same) = if-some (length t.shape == 3) (conv_pool true t) p e in
    subst (λ q. Covers q t) same (base_pool-Covers t)
state_pool-Covers false conv t p e =
    let (three, same) = if-some (length t.shape == 3) (conv_pool false t) p e in
    subst (λ q. Covers q t) same (base_pool-Covers t)
state_pool-Covers dim_first temporal t p e =
    subst (λ q. Covers q t) (some_injective e) (base_pool-Covers t)
state_pool-Covers dim_first other t p e = cc

-- The entries are of these tensors, one by one.
abbrev pub AreOf : List Entry → List Tensor → Type 0
AreOf [] [] = Unit
AreOf [] (t ∷ ts) = ⊥
AreOf (e ∷ es) [] = ⊥
AreOf (e ∷ es) (t ∷ ts) = Covers e.0 t × AreOf es ts

pub AreOf-append :
    (es fs : List Entry) (ts us : List Tensor)
    → AreOf es ts
    → AreOf fs us
    → AreOf (es ++ fs) (ts ++ us)
AreOf-append [] fs [] us a b = b
AreOf-append [] fs (t ∷ ts) us a b = absurd a
AreOf-append (e ∷ es) fs [] us a b = absurd a
AreOf-append (e ∷ es) fs (t ∷ ts) us a b = (a.0, AreOf-append es fs ts us a.1 b)

pub AreOf-get_elem? :
    (es : List Entry) (ts : List Tensor) (i : ℕ) (e : Entry)
    → AreOf es ts
    → get_elem? es i ≡ some e
    → (t : Tensor) × (get_elem? ts i ≡ some t) × Covers e.0 t
AreOf-get_elem? [] ts i e a at = cc
AreOf-get_elem? (f ∷ es) [] i e a at = absurd a
AreOf-get_elem? (f ∷ es) (t ∷ ts) zero e a at =
    (t, refl, subst (λ g. Covers g.0 t) (some_injective at) a.0)
AreOf-get_elem? (f ∷ es) (t ∷ ts) (suc i) e a at = AreOf-get_elem? es ts i e a.1 at

-- What is inside the pool is within the tensor that it covers.
pub AreInside-AreWithin :
    (p : StatePool) (t : Tensor) (o : Outcome) → Covers p t → AreInside p o → AreWithin t o
AreInside-AreWithin p t idle c a = tt
AreInside-AreWithin p t guard_hit c a = tt
AreInside-AreWithin p t (copies cs) c a = all_within cs a
  where
    all_within : (cs : List Copy) → All (IsInside p) cs → All (IsWithin t) cs
    all_within [] a = tt
    all_within (x ∷ xs) ((s, s', d, d'), a) = (
      (
        omega (arith, c.0, s),
        omega (arith, c.0, c.1, s'),
        omega (arith, c.0, d),
        omega (arith, c.0, c.1, d'),
      ),
      all_within xs a,
    )

-- What a list is made of, when it is made.
pub prepend-inv :
    (o : Option StatePool) (group : ℕ) (rest : Option (List Entry)) (es : List Entry)
    → prepend o group rest ≡ some es
    → (p : StatePool) × (fs : List Entry) × (o ≡ some p) × (rest ≡ some fs) × ((p, group) ∷ fs ≡ es)
prepend-inv none group rest es e = cc
prepend-inv (some p) group none es e = cc
prepend-inv (some p) group (some fs) es e = (p, fs, refl, refl, some_injective e)

pub join-inv :
    (o rest : Option (List Entry)) (es : List Entry)
    → join o rest ≡ some es
    → (ds : List Entry) × (fs : List Entry) × (o ≡ some ds) × (rest ≡ some fs) × (ds ++ fs ≡ es)
join-inv none rest es e = cc
join-inv (some ds) none es e = cc
join-inv (some ds) (some fs) es e = (ds, fs, refl, refl, some_injective e)

module _ (dim_first : Bool) where
  state_entries-AreOf :
      (group : ℕ) (ts : List Tensor) (fs : List CopyFunc) (es : List Entry)
      → state_entries dim_first group ts fs ≡ some es
      → AreOf es ts
  unfolding state_entries
  state_entries-AreOf group [] fs es e = subst (λ ds. AreOf ds []) (some_injective e) tt
  state_entries-AreOf group (t ∷ ts) [] es e = cc
  state_entries-AreOf group (t ∷ ts) (f ∷ fs) es e =
      let (p, rest, made, more, whole) =
        prepend-inv (state_pool dim_first f t) group (state_entries dim_first group ts fs) es e in
      subst (λ ds. AreOf ds (t ∷ ts)) whole
        (state_pool-Covers dim_first f t p made, state_entries-AreOf group ts fs rest more)

  layer_entries-AreOf :
      (group : ℕ) (ls : List Layer) (es : List Entry)
      → layer_entries dim_first group ls ≡ some es
      → AreOf es (layer_tensors ls)
  unfolding layer_entries
  layer_entries-AreOf group [] es e = subst (λ ds. AreOf ds []) (some_injective e) tt
  layer_entries-AreOf group (l ∷ ls) es e =
      let (ds, fs, made, more, whole) = join-inv _ (layer_entries dim_first group ls) es e in
      let first =
        state_entries-AreOf group l.kv_cache l.copy_funcs ds
          (if-option (length l.kv_cache == l.num_shapes)
            (state_entries dim_first group l.kv_cache l.copy_funcs) ds made).1 in
      subst (λ gs. AreOf gs (layer_tensors (l ∷ ls))) whole
        (AreOf-append ds fs l.kv_cache (layer_tensors ls) first
          (layer_entries-AreOf group ls fs more))

  pub group_entries-AreOf :
      (group : ℕ) (groups : List (List Layer)) (es : List Entry)
      → group_entries dim_first group groups ≡ some es
      → AreOf es (group_tensors groups)
  unfolding group_entries
  group_entries-AreOf group [] es e = subst (λ ds. AreOf ds []) (some_injective e) tt
  group_entries-AreOf group (ls ∷ groups) es e =
      let (ds, fs, made, more, whole) =
        join-inv (layer_entries dim_first group ls) (group_entries dim_first (group + 1) groups) es
          e in
      subst (λ gs. AreOf gs (group_tensors (ls ∷ groups))) whole
        (AreOf-append ds fs (layer_tensors ls) (group_tensors groups)
          (layer_entries-AreOf group ls ds made) (group_entries-AreOf (group + 1) groups fs more))
