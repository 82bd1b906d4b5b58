-- ===== src/Fp8Convert/Turn.antt =====
-- The turn of one file in the loop of tools/fp8_convert.py.
use qwen3_8_flash_dgx_auto_r.Common.{
  ℕ, ◌≡◌, sym, ap, ◌∙◌, subst, inl, inr, Bool-cases, Option-cases, true, false, List, [], ◌++◌,
  Option, some, some_injective,
}
use qwen3_8_flash_dgx_auto_r.Fp8Convert.{
  Tensors, File, whole, Slot, WeightMap, Checkpoint, Op, Outcome, Quantizer, names_in,
  record_scales, save_index, convert_tensors, begun, swap_ops, load_file, file_ops,
}
use qwen3_8_flash_dgx_auto_r.Fp8Convert.Convert.{convert_tensors_again}
use qwen3_8_flash_dgx_auto_r.Fp8Convert.Kept.{
  Kept, untouched, backed_up, moved, swapped, AreKept, AllKept, AllKept-append, save_index-AllKept,
  swap_rename-AllKept, swap_remove-AllKept, names_in-record_scales,
}

module _ {W Q : Type 0} (z : Quantizer W Q) where
  -- What a file's turn without an exception says.
  pub file_ops-some :
      (f : ℕ) (bs : List ℕ) (s : Slot W Q) (wm : WeightMap) (r : List (Op W Q) × WeightMap)
      → file_ops z f bs s wm ≡ some r
      → (t : Tensors W Q) × (o : Outcome W Q) × (load_file s.path ≡ some t)
        × (convert_tensors z bs (begun t) ≡ some o)
        × (r ≡ (
          swap_ops f s.bak o ++ save_index (record_scales o.recorded f wm),
          record_scales o.recorded f wm,
        ))
  unfolding file_ops
  file_ops-some f bs s wm r h = elim (Option-cases (load_file s.path)) [
    | inl e ↦ cc (rw (e, file_ops) at h)
    | inr (t, e) ↦ elim (Option-cases (convert_tensors z bs (begun t))) [
      | inl e' ↦ cc (rw (e, e', file_ops) at h)
      | inr (o, e') ↦ (t, o, e, e', sym (some_injective (rw (e, e', file_ops) at h)))
    ]
  ]

  pub file_ops_lem :
      (f : ℕ) (bs : List ℕ) (s : Slot W Q) (wm : WeightMap) (t : Tensors W Q) (o : Outcome W Q)
      → load_file s.path ≡ some t
      → convert_tensors z bs (begun t) ≡ some o
      → let wm' = record_scales o.recorded f wm in
        file_ops z f bs s wm ≡ some (swap_ops f s.bak o ++ save_index wm', wm')
  unfolding file_ops
  file_ops_lem f bs s wm t o loaded made = rw (loaded, made, file_ops)

  module _ (names : ℕ → List ℕ) (originals : ℕ → Tensors W Q) where
    abbrev pub Good : Checkpoint W Q → Type 0
    Good = AreKept z names originals

    abbrev pub GoodOps : Checkpoint W Q → List (Op W Q) → Type 0
    GoodOps = AllKept z names originals

    load_file-whole :
        (path : Option (File W Q)) (x t : Tensors W Q)
        → path ≡ some (whole x)
        → load_file path ≡ some t
        → x ≡ t
    unfolding load_file
    load_file-whole path x t p h = some_injective (subst (λ q. load_file q ≡ some t) p h)

    unchanged_ops :
        (f : ℕ) (bak : Option (File W Q)) (o : Outcome W Q)
        → o.changed ≡ false
        → swap_ops f bak o ≡ []
    unfolding swap_ops
    unchanged_ops f bak o c = rw c

    unchanged-AllKept :
        (f : ℕ) (d : Checkpoint W Q) (bak : Option (File W Q)) (o : Outcome W Q)
        → Good d
        → o.changed ≡ false
        → GoodOps d (swap_ops f bak o)
    unfolding swap_ops
    unchanged-AllKept f d bak o v c = subst (GoodOps d) (sym (unchanged_ops f bak o c)) v

    changed-AllKept :
        (f : ℕ) (d : Checkpoint W Q) (t : Tensors W Q) (o : Outcome W Q)
        → Good d
        → Kept z names originals f (d.slots f)
        → load_file (d.slots f).path ≡ some t
        → convert_tensors z (names f) (begun t) ≡ some o
        → o.changed ≡ true
        → GoodOps d (swap_ops f (d.slots f).bak o)
    unfolding load_file
    changed-AllKept f d t o v (untouched p b) loaded made c =
        let same = load_file-whole _ (originals f) t p loaded in
        swap_rename-AllKept z names originals f o
          (subst (λ x. convert_tensors z (names f) (begun x) ≡ some o) (sym same) made) c d v p b
    changed-AllKept f d t o v (backed_up p b) loaded made c =
        let same = load_file-whole _ (originals f) t p loaded in
        swap_remove-AllKept z names originals f o
          (subst (λ x. convert_tensors z (names f) (begun x) ≡ some o) (sym same) made) c d v p b
    changed-AllKept f d t o v (moved p b) loaded made c =
        cc (subst (λ q. load_file q ≡ some t) p loaded)
    changed-AllKept f d t o v (swapped o' made' changed p b) loaded made c =
        let same = load_file-whole _ o'.tensors t p loaded in
        let (r, again) = convert_tensors_again z (names f) (originals f) o' made' in
        let e = some_injective (
          sym again
          ∙ subst (λ x. convert_tensors z (names f) (begun x) ≡ some o) (sym same) made) in
        cc (ap (λ (q : Outcome W Q). q.changed) e, c)

    -- The swap of a file is kept, whatever phase its shard is in.
    swap_ops-AllKept :
        (f : ℕ) (d : Checkpoint W Q) (t : Tensors W Q) (o : Outcome W Q)
        → Good d
        → Kept z names originals f (d.slots f)
        → load_file (d.slots f).path ≡ some t
        → convert_tensors z (names f) (begun t) ≡ some o
        → GoodOps d (swap_ops f (d.slots f).bak o)
    swap_ops-AllKept f d t o v k loaded made = elim (Bool-cases o.changed) [
      | inl c ↦ changed-AllKept f d t o v k loaded made c
      | inr c ↦ unchanged-AllKept f d (d.slots f).bak o v c
    ]

    -- A file's turn keeps the checkpoint.
    pub file_ops-AllKept :
        (f : ℕ) (d : Checkpoint W Q) (wm : WeightMap) (r : List (Op W Q) × WeightMap)
        → Good d
        → ((g : ℕ) → names_in g wm ≡ names g)
        → file_ops z f (names f) (d.slots f) wm ≡ some r
        → GoodOps d r.0 × ((g : ℕ) → names_in g r.1 ≡ names g)
    file_ops-AllKept f d wm r v same h =
        let (t, o, loaded, made, e) = file_ops-some f (names f) (d.slots f) wm r h in
        let wm' = record_scales o.recorded f wm in
        let same' : (g : ℕ) → names_in g wm' ≡ names g =
          λ g. names_in-record_scales g o.recorded f wm ∙ same g in
        let ok =
          AllKept-append z names originals d (swap_ops f (d.slots f).bak o) (save_index wm')
            (swap_ops-AllKept f d t o v (v.kept f) loaded made)
            (λ v'. save_index-AllKept z names originals _ wm' v' same') in
        (subst (λ q. GoodOps d q.0) (sym e) ok, λ g. ap (λ q. names_in g q.1) e ∙ same' g)
