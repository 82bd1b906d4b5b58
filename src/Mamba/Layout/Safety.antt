-- ===== src/Mamba/Layout/Safety.antt =====
-- _populate_metadata of src/mamba_utils_guarded.py over all states, and the kernels after it.
use qwen3_8_flash_dgx_auto_r.Common.{
  ℕ, ◌+◌, ◌<◌, ◌≤◌, ◌≡◌, refl, Bool, ◌&&◌, List, [], ◌∷◌, Option, none, some, ◌==◌, length,
  get_elem?, All, if-option, get_elem?-some, sym, ap, ◌∙◌, get_elem?-All, some_injective, subst,
  arith,
}
use qwen3_8_flash_dgx_auto_r.Mamba.Copy.{StatePool}
use qwen3_8_flash_dgx_auto_r.Mamba.Copy.Inside.{IsLaidOut, All-append}
use qwen3_8_flash_dgx_auto_r.Mamba.Kernels.{Slots, Launch, postprocess_mamba_fused_kernel}
use qwen3_8_flash_dgx_auto_r.Mamba.Kernels.Guarded.{HasRoom, postprocess-inside}
use qwen3_8_flash_dgx_auto_r.Mamba.Layout.{
  Tensor, CopyFunc, Layer, BlockTable, Entry, Context, state_pool, state_entries, layer_entries,
  group_entries, common_stride, finish_metadata, with_stride, populate_metadata, total_states,
  initialize,
}
use qwen3_8_flash_dgx_auto_r.Mamba.Layout.Memory.{
  prepend-inv, join-inv, group_entries-AreOf, AreWithin, group_tensors, AreOf, AreOf-get_elem?,
  AreInside-AreWithin,
}
use qwen3_8_flash_dgx_auto_r.Mamba.Layout.Fits.{IsStrided, state_pool-IsLaidOut}

-- The tensors of a layer, each with its copy function.
unfoldable pub AreStrided : Bool → List Tensor → List CopyFunc → Type 0
AreStrided dim_first [] fs = Unit
AreStrided dim_first (t ∷ ts) [] = Unit
AreStrided dim_first (t ∷ ts) (f ∷ fs) = IsStrided dim_first f t × AreStrided dim_first ts fs

abbrev pub LayerIsStrided : Bool → Layer → Type 0
LayerIsStrided dim_first l = AreStrided dim_first l.kv_cache l.copy_funcs

-- An entry of the metadata, of one of `num_groups`.
abbrev pub IsSound : ℕ → Entry → Type 0
IsSound num_groups (p, group) = IsLaidOut p × (group < num_groups)

module _ (dim_first : Bool) (num_groups : ℕ) where
  abbrev AreSound : List Entry → Type 0
  AreSound = All (IsSound num_groups)

  state_entries-AreSound :
      (group : ℕ) (ts : List Tensor) (fs : List CopyFunc) (es : List Entry)
      → group < num_groups
      → AreStrided dim_first ts fs
      → state_entries dim_first group ts fs ≡ some es
      → AreSound es
  unfolding state_entries AreStrided
  state_entries-AreSound group [] fs es lt h e = subst AreSound (some_injective e) tt
  state_entries-AreSound group (t ∷ ts) [] es lt h e = cc
  state_entries-AreSound group (t ∷ ts) (f ∷ fs) es lt (h, hs) e =
      let (p, rest, made, more, whole) =
        prepend-inv (state_pool dim_first f t) group (state_entries dim_first group ts fs) es e in
      subst AreSound whole (
        (state_pool-IsLaidOut dim_first f t p h made, lt),
        state_entries-AreSound group ts fs rest lt hs more,
      )

  layer_entries-AreSound :
      (group : ℕ) (ls : List Layer) (es : List Entry)
      → group < num_groups
      → All (LayerIsStrided dim_first) ls
      → layer_entries dim_first group ls ≡ some es
      → AreSound es
  unfolding layer_entries
  layer_entries-AreSound group [] es lt h e = subst AreSound (some_injective e) tt
  layer_entries-AreSound group (l ∷ ls) es lt (h, hs) e =
      let (ds, fs, made, more, whole) = join-inv _ (layer_entries dim_first group ls) es e in
      let sound =
        state_entries-AreSound group l.kv_cache l.copy_funcs ds lt h
          (if-option (length l.kv_cache == l.num_shapes)
            (state_entries dim_first group l.kv_cache l.copy_funcs) ds made).1 in
      subst AreSound whole (
        All-append (IsSound num_groups) ds fs sound (layer_entries-AreSound group ls fs lt hs more))

  group_entries-AreSound :
      (group : ℕ) (groups : List (List Layer)) (es : List Entry)
      → group + length groups ≤ num_groups
      → All (All (LayerIsStrided dim_first)) groups
      → group_entries dim_first group groups ≡ some es
      → AreSound es
  unfolding group_entries
  group_entries-AreSound group [] es le h e = subst AreSound (some_injective e) tt
  group_entries-AreSound group (ls ∷ groups) es le (h, hs) e =
      let (ds, fs, made, more, whole) =
        join-inv (layer_entries dim_first group ls) (group_entries dim_first (group + 1) groups) es
          e in
      let sound = layer_entries-AreSound group ls ds (omega (arith, le)) h made in
      subst AreSound whole (
        All-append (IsSound num_groups) ds fs sound
          (group_entries-AreSound (group + 1) groups fs (omega (arith, le)) hs more))

-- What the final assertions leave.
with_stride-inv :
    (es : List Entry) (tables : List BlockTable) (stride : Option ℕ) (ctx : Context)
    → with_stride es tables stride ≡ some ctx
    → (es ≡ ctx.states) × (tables ≡ ctx.block_tables)
with_stride-inv es tables none ctx e = cc
with_stride-inv es tables (some stride) ctx e =
    let same = some_injective e in (ap (λ c. c.states) same, ap (λ c. c.block_tables) same)

finish_metadata-inv :
    (num_states num_groups : ℕ) (tables : List BlockTable) (made : Option (List Entry))
    (ctx : Context)
    → finish_metadata num_states num_groups tables made ≡ some ctx
    → (made ≡ some ctx.states)
      × (length ctx.states ≡ num_states)
      × (length ctx.block_tables ≡ num_groups)
unfolding finish_metadata
finish_metadata-inv num_states num_groups tables none ctx e = cc
finish_metadata-inv num_states num_groups tables (some es) ctx e =
    let (sizes, made) =
      if-option ((length es == num_states) && (length tables == num_groups))
        (with_stride es tables (common_stride tables)) ctx e in
    let (states, kept) = with_stride-inv es tables (common_stride tables) ctx made in
    let both : (length es ≡ num_states) × (length tables ≡ num_groups) = ground (arith, sizes) in
    (ap some states, sym (ap length states) ∙ both.0, sym (ap length kept) ∙ both.1)

populate_metadata-AreSound :
    (dim_first : Bool) (groups : List (List Layer)) (tables : List BlockTable) (ctx : Context)
    → All (All (LayerIsStrided dim_first)) groups
    → populate_metadata dim_first groups tables ≡ some ctx
    → All (IsSound (length ctx.block_tables)) ctx.states
      × (length ctx.states ≡ total_states groups)
      × AreOf ctx.states (group_tensors groups)
unfolding populate_metadata
populate_metadata-AreSound dim_first groups tables ctx h e =
    let (made, states, kept) =
      finish_metadata-inv (total_states groups) (length groups) tables
        (group_entries dim_first 0 groups) ctx e in
    (
      group_entries-AreSound dim_first (length ctx.block_tables) 0 groups ctx.states
          (omega (arith, kept)) h made,
      states,
      group_entries-AreOf dim_first 0 groups ctx.states made,
    )

module _ (dim_first : Bool) (groups : List (List Layer)) (tables : List BlockTable) (ctx : Context)
    (strided : All (All (LayerIsStrided dim_first)) groups)
    (populated : populate_metadata dim_first groups tables ≡ some ctx) (state_idx : ℕ)
    (state_ok : state_idx < total_states groups) where
  -- When _populate_metadata returns a context for tensors whose blocks hold their data, each index
  -- of a state has an entry of a group that has a block table, and a tensor of the layers, the one at
  -- that index. No program of the postprocess kernel for that state copies outside the memory of that
  -- tensor, from its data pointer to the end of its last block, when the accepted counts are at most
  -- one more than the width of a conv state.
  pub populate_metadata-inside :
      (l : Launch) (block_size : ℕ) (precomputed : Bool) (s : Slots) (batch_idx tile_idx : ℕ)
      → ((p : StatePool) (group slot : ℕ)
          → get_elem? ctx.states state_idx ≡ some (p, group)
          → HasRoom p (s.num_accepted_tokens slot))
      → (p : StatePool) × (group : ℕ) × (t : Tensor) × (get_elem? ctx.states state_idx
          ≡ some (p, group))
        × (group < length ctx.block_tables)
        × (get_elem? (group_tensors groups) state_idx ≡ some t)
        × AreWithin t
            (postprocess_mamba_fused_kernel p block_size precomputed l s batch_idx state_idx
              tile_idx).1
  populate_metadata-inside l block_size precomputed s batch_idx tile_idx room =
      let (sound, states, of) =
        populate_metadata-AreSound dim_first groups tables ctx strided populated in
      let ((p, group), found) =
        get_elem?-some ctx.states state_idx (omega (arith, states, state_ok)) in
      let (laid, group_ok) =
        get_elem?-All (IsSound (length ctx.block_tables)) ctx.states state_idx sound found in
      let (t, at, covers) =
        AreOf-get_elem? ctx.states (group_tensors groups) state_idx (p, group) of found in
      (
        p,
        group,
        t,
        found,
        group_ok,
        at,
        AreInside-AreWithin p t _ covers (
            postprocess-inside p l laid block_size precomputed s batch_idx state_idx tile_idx
              (λ slot. room p group slot found)),
      )

-- A context is populated once.
pub initialize-again :
    (dim_first : Bool) (groups : List (List Layer)) (tables : List BlockTable) (ctx : Context)
    → initialize dim_first groups tables (some ctx) ≡ some ctx
unfolding initialize
initialize-again dim_first groups tables ctx = refl
