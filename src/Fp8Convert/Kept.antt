-- ===== src/Fp8Convert/Kept.antt =====
-- What the operations of tools/fp8_convert.py keep of a checkpoint, one operation at a time.
use qwen3_8_flash_dgx_auto_r.Common.{
  ℕ, ◌≡◌, refl, sym, ap, ◌∙◌, subst, inl, inr, Bool-cases, ==_iff, true, List, [], ◌∷◌, ◌++◌,
  Option, none, some, arith, set, ◌==◌, eq_refl,
}
use qwen3_8_flash_dgx_auto_r.Fp8Convert.{
  weight, weight_scale_inv, other_name, Name-discrete, Tensors, File, whole, Slot, WeightMap,
  Checkpoint, Op, write, step, run, Outcome, Quantizer, names_in, record_scales, save_index,
  convert_tensors, begun, swap_ops,
}

names_in-set :
    (g b f : ℕ) (wm : WeightMap)
    → names_in g (set Name-discrete (weight_scale_inv b) f wm) ≡ names_in g wm
unfolding names_in set
names_in-set g b f [] = refl
names_in-set g b f ((weight c, h) ∷ wm) = ground (arith, names_in-set g b f wm)
names_in-set g b f ((weight_scale_inv c, h) ∷ wm) = ground (arith, names_in-set g b f wm)
names_in-set g b f ((other_name c, h) ∷ wm) = ground (arith, names_in-set g b f wm)

pub names_in-record_scales :
    (g : ℕ) (bs : List ℕ) (f : ℕ) (wm : WeightMap)
    → names_in g (record_scales bs f wm) ≡ names_in g wm
unfolding record_scales
names_in-record_scales g [] f wm = refl
names_in-record_scales g (b ∷ bs) f wm =
    names_in-record_scales g bs f (set Name-discrete (weight_scale_inv b) f wm)
    ∙ names_in-set g b f wm

module _ {W Q : Type 0} (z : Quantizer W Q) (names : ℕ → List ℕ) (originals : ℕ → Tensors W Q) where
  abbrev pub original : ℕ → Option (File W Q)
  original f = some (whole (originals f))

  -- How far a shard has come: the original is under its own name or the backup.
  pub data Kept (f : ℕ) (s : Slot W Q) : Type 0 where
    untouched : s.path ≡ original f → s.bak ≡ none → Kept f s
    backed_up : s.path ≡ original f → s.bak ≡ original f → Kept f s
    moved : s.path ≡ none → s.bak ≡ original f → Kept f s
    swapped :
        (o : Outcome W Q)
        → convert_tensors z (names f) (begun (originals f)) ≡ some o
        → o.changed ≡ true
        → s.path ≡ some (whole o.tensors)
        → s.bak ≡ original f
        → Kept f s

  -- Each shard is kept, and the index has the targets that it had.
  pub record AreKept (d : Checkpoint W Q) : Type 0 where
    pub kept : (f : ℕ) → Kept f (d.slots f)
    pub targets : (f : ℕ) → names_in f d.index ≡ names f

  Kept-tmp :
      (f : ℕ) (s : Slot W Q) (t : Option (File W Q)) → Kept f s → Kept f (record s { tmp = t })
  Kept-tmp f s t (untouched p b) = untouched p b
  Kept-tmp f s t (backed_up p b) = backed_up p b
  Kept-tmp f s t (moved p b) = moved p b
  Kept-tmp f s t (swapped o h c p b) = swapped o h c p b

  pub write_self : (f : ℕ) (s : Slot W Q) (d : Checkpoint W Q) → (write f s d).slots f ≡ s
  unfolding write
  write_self f s d = rw (eq_refl f) refl

  write-AreKept :
      (f : ℕ) (s : Slot W Q) (d : Checkpoint W Q) → AreKept d → Kept f s → AreKept (write f s d)
  unfolding write
  write-AreKept f s d v k = record {
    kept = λ g. elim (Bool-cases (g == f)) [
      | inl e ↦ rw e (subst (λ h. Kept h s) (sym ((==_iff g f).0 e)) k)
      | inr e ↦ rw e (v.kept g)
    ];
    targets = v.targets;
  }

  -- Every state that a list of operations goes through.
  abbrev pub AllKept : Checkpoint W Q → List (Op W Q) → Type 0
  AllKept d [] = AreKept d
  AllKept d (o ∷ os) = AreKept d × AllKept (step d o) os

  pub AllKept-append :
      (d : Checkpoint W Q) (os rest : List (Op W Q))
      → AllKept d os
      → (AreKept (run d os) → AllKept (run d os) rest)
      → AllKept d (os ++ rest)
  unfolding run
  AllKept-append d [] rest k next = next k
  AllKept-append d (o ∷ os) rest k next = (k.0, AllKept-append (step d o) os rest k.1 next)

  pub save_index-AllKept :
      (d : Checkpoint W Q) (wm : WeightMap)
      → AreKept d
      → ((f : ℕ) → names_in f wm ≡ names f)
      → AllKept d (save_index wm)
  unfolding save_index step
  save_index-AllKept d wm v targets = (
    v,
    (record { kept = v.kept; targets = v.targets }, record { kept = v.kept; targets = targets }),
  )

  saved : ℕ → Tensors W Q → Checkpoint W Q → Checkpoint W Q
  saved f t d = step (step d (Op.begin_save f)) (Op.end_save f t)

  -- The slot of a file, after its new shard is saved.
  saved_lem :
      (f : ℕ) (t : Tensors W Q) (d : Checkpoint W Q)
      → (saved f t d).slots f ≡ record (d.slots f) { tmp = some (whole t) }
  unfolding saved step write
  saved_lem f t d = rw (eq_refl f) refl

  begin_save-AreKept : (f : ℕ) (d : Checkpoint W Q) → AreKept d → AreKept (step d (Op.begin_save f))
  unfolding step
  begin_save-AreKept f d v = write-AreKept f _ d v (Kept-tmp f (d.slots f) _ (v.kept f))

  saved-AreKept : (f : ℕ) (t : Tensors W Q) (d : Checkpoint W Q) → AreKept d → AreKept (saved f t d)
  unfolding saved step
  saved-AreKept f t d v =
      let d1 = step d (Op.begin_save f) in
      let v1 = begin_save-AreKept f d v in
      write-AreKept f _ d1 v1 (Kept-tmp f (d1.slots f) _ (v1.kept f))

  module _ (f : ℕ) (o : Outcome W Q)
      (made : convert_tensors z (names f) (begun (originals f)) ≡ some o)
      (changed : o.changed ≡ true) (d : Checkpoint W Q) (v : AreKept d)
      (at_path : (d.slots f).path ≡ original f) where
    ready : Checkpoint W Q
    ready = saved f o.tensors d

    -- The swap is kept, when the original has been moved or removed.
    replace_path-AreKept :
        (s : Slot W Q)
        → s.bak ≡ original f
        → s.tmp ≡ some (whole o.tensors)
        → AreKept (write f s ready)
        → AreKept (step (write f s ready) (Op.replace_path f))
    unfolding step
    replace_path-AreKept s b t w =
        let e = write_self f s ready in
        write-AreKept f _ (write f s ready) w (
          swapped o made changed (ap (λ (r : Slot W Q). r.tmp) e ∙ t)
            (ap (λ (r : Slot W Q). r.bak) e ∙ b))

    swap_with : Op W Q → List (Op W Q)
    swap_with away = Op.begin_save f ∷ Op.end_save f o.tensors ∷ away ∷ Op.replace_path f ∷ []

    swap_ops_rename :
        (bak : Option (File W Q)) → bak ≡ none → swap_ops f bak o ≡ swap_with (Op.rename_path f)
    unfolding swap_ops swap_with
    swap_ops_rename bak b = rw (changed, b) refl

    swap_ops_remove :
        (bak : Option (File W Q))
        → bak ≡ original f
        → swap_ops f bak o ≡ swap_with (Op.remove_path f)
    unfolding swap_ops swap_with
    swap_ops_remove bak b = rw (changed, b) refl

    pub swap_rename-AllKept : (d.slots f).bak ≡ none → AllKept d (swap_ops f (d.slots f).bak o)
    unfolding swap_with ready saved step
    swap_rename-AllKept b =
        let r = saved-AreKept f o.tensors d v in
        let e = saved_lem f o.tensors d in
        let s : Slot W Q = record (ready.slots f) { path = none; bak = (ready.slots f).path } in
        let kept : s.bak ≡ original f = ap (λ (r : Slot W Q). r.path) e ∙ at_path in
        let w = write-AreKept f s ready r (moved refl kept) in
        let t = ap (λ (r : Slot W Q). r.tmp) e in
        subst (AllKept d) (sym (swap_ops_rename (d.slots f).bak b))
          (v, (begin_save-AreKept f d v, (r, (w, replace_path-AreKept s kept t w))))

    pub swap_remove-AllKept :
        (d.slots f).bak ≡ original f → AllKept d (swap_ops f (d.slots f).bak o)
    unfolding swap_with ready saved step
    swap_remove-AllKept b =
        let r = saved-AreKept f o.tensors d v in
        let e = saved_lem f o.tensors d in
        let s : Slot W Q = record (ready.slots f) { path = none } in
        let kept : s.bak ≡ original f = ap (λ (r : Slot W Q). r.bak) e ∙ b in
        let w = write-AreKept f s ready r (moved refl kept) in
        let t = ap (λ (r : Slot W Q). r.tmp) e in
        subst (AllKept d) (sym (swap_ops_remove (d.slots f).bak b))
          (v, (begin_save-AreKept f d v, (r, (w, replace_path-AreKept s kept t w))))
