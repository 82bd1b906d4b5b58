-- ===== src/Fp8Convert/Stuck.antt =====
-- A run of tools/fp8_convert.py that is cut off between moving the original away and putting the new
-- shard in its place.
use qwen3_8_flash_dgx_auto_r.Common.{
  ℕ, zero, suc, ◌≡◌, refl, ap, true, false, List, [], ◌∷◌, none, some, is_empty, eq_refl,
  some_injective, take, Option,
}
use qwen3_8_flash_dgx_auto_r.Fp8Convert.{
  Tensors, Slot, Checkpoint, Op, File, step, write, run, Outcome, Quantizer, names_in,
  convert_tensors, begun, swap_ops, load_file, file_ops, main, attempt, attempts,
}
use qwen3_8_flash_dgx_auto_r.Fp8Convert.Turn.{file_ops_lem}
use qwen3_8_flash_dgx_auto_r.Fp8Convert.Resume.{convert_files_turn, convert_files_raise}

module _ {W Q : Type 0} (z : Quantizer W Q) (f : ℕ) (fs : List ℕ) where
  -- A changed shard has a target.
  changed-names :
      (bs : List ℕ) (t : Tensors W Q) (o : Outcome W Q)
      → convert_tensors z bs (begun t) ≡ some o
      → o.changed ≡ true
      → is_empty bs ≡ false
  unfolding convert_tensors
  changed-names [] t o made c =
      let e = some_injective made in cc (ap (λ (q : Outcome W Q). q.changed) e)
  changed-names (b ∷ bs) t o made c = refl

  -- With the path gone, a run raises before it writes anything.
  main_gone :
      (d : Checkpoint W Q)
      → is_empty (names_in f d.index) ≡ false
      → (d.slots f).path ≡ none
      → main z (f ∷ fs) d ≡ []
  unfolding main
  main_gone d e gone =
      convert_files_raise z d.index f fs d d.index e
        (file_ops_gone (names_in f d.index) (d.slots f) gone)
    where
      file_ops_gone :
          (bs : List ℕ) (s : Slot W Q) → s.path ≡ none → file_ops z f bs s d.index ≡ none
      file_ops_gone bs s h = rw (h, file_ops, load_file)

  take_nil : (n : ℕ) → take {A = Op W Q} n [] ≡ []
  take_nil zero = refl
  take_nil (suc n) = refl

  attempts_gone :
      (runs : List ℕ) (d : Checkpoint W Q)
      → is_empty (names_in f d.index) ≡ false
      → (d.slots f).path ≡ none
      → attempts z (f ∷ fs) runs d ≡ d
  unfolding attempts attempt run
  attempts_gone [] d e gone = refl
  attempts_gone (n ∷ more) d e gone =
      rw (main_gone d e gone, take_nil n) (attempts_gone more d e gone)

  -- The checkpoint when the original has just been moved away.
  cut : Tensors W Q → Checkpoint W Q → Checkpoint W Q
  cut t d = step (step (step d (Op.begin_save f)) (Op.end_save f t)) (Op.rename_path f)

  cut-path : (t : Tensors W Q) (d : Checkpoint W Q) → ((cut t d).slots f).path ≡ none
  unfolding cut step write
  cut-path t d = rw (eq_refl f) refl

  cut-bak : (t : Tensors W Q) (d : Checkpoint W Q) → ((cut t d).slots f).bak ≡ (d.slots f).path
  unfolding cut step write
  cut-bak t d = rw (eq_refl f) refl

  swap_ops_lem :
      (bak : Option (File W Q)) (o : Outcome W Q)
      → o.changed ≡ true
      → bak ≡ none
      → swap_ops f bak o
        ≡ Op.begin_save f ∷ Op.end_save f o.tensors ∷ Op.rename_path f ∷ Op.replace_path f ∷ []
  unfolding swap_ops
  swap_ops_lem bak o c b = rw (c, b) refl

  attempt-cut :
      (d : Checkpoint W Q) (t : Tensors W Q) (o : Outcome W Q)
      → load_file (d.slots f).path ≡ some t
      → convert_tensors z (names_in f d.index) (begun t) ≡ some o
      → o.changed ≡ true
      → (d.slots f).bak ≡ none
      → attempt z (f ∷ fs) 3 d ≡ cut o.tensors d
  unfolding attempt main cut run
  attempt-cut d t o loaded made c b =
      let e = changed-names (names_in f d.index) t o made c in
      let turn = file_ops_lem z f (names_in f d.index) (d.slots f) d.index t o loaded made in
      rw (convert_files_turn z d.index f fs d d.index _ e turn, swap_ops_lem (d.slots f).bak o c b)
        refl

  -- When the shard of the first file has no backup, and its conversion succeeds and changes it: if the
  -- run is cut off after the shard has been moved to its backup, and before the converted shard is in
  -- its place, the shard is under its backup name only, and every later run raises before it writes
  -- anything.
  pub cut_off-stuck :
      (d : Checkpoint W Q) (t : Tensors W Q) (o : Outcome W Q) (runs : List ℕ)
      → load_file (d.slots f).path ≡ some t
      → convert_tensors z (names_in f d.index) (begun t) ≡ some o
      → o.changed ≡ true
      → (d.slots f).bak ≡ none
      → let d' = attempt z (f ∷ fs) 3 d in
        ((d'.slots f).path ≡ none)
        × ((d'.slots f).bak ≡ (d.slots f).path)
        × (main z (f ∷ fs) d' ≡ [])
        × (attempts z (f ∷ fs) runs d' ≡ d')
  unfolding cut step write
  cut_off-stuck d t o runs loaded made c b =
      let e = changed-names (names_in f d.index) t o made c in
      let d' = cut o.tensors d in
      let gone = cut-path o.tensors d in
      rw (attempt-cut d t o loaded made c b)
        (gone, cut-bak o.tensors d, main_gone d' e gone, attempts_gone runs d' e gone)
