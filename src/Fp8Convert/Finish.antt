-- ===== src/Fp8Convert/Finish.antt =====
-- A run of tools/fp8_convert.py to the end.
use qwen3_8_flash_dgx_auto_r.Common.{
  ℕ, ◌≡◌, ◌≢◌, ◌⊎◌, refl, sym, ap, ◌∙◌, subst, inl, inr, Bool-cases, true, false, List, [], ◌∷◌,
  some, is_empty, eq_refl, arith, ◌++◌, Option, distinct, elem, elem_self, elem-cons,
  elem-cons_tail, not_elem-cons, distinct-cons, ℕ_discrete,
}
use qwen3_8_flash_dgx_auto_r.Fp8Convert.{
  Tensors, File, whole, WeightMap, Slot, Checkpoint, Op, step, write, run, Outcome, Quantizer,
  names_in, record_scales, convert_tensors, begun, swap_ops, load_file, file_ops, convert_files,
  main, save_index,
}
use mathlib.Core.Path.{fun_ext}
use qwen3_8_flash_dgx_auto_r.Fp8Convert.Conversion.{conversion, convert_tensors-conversion}
use qwen3_8_flash_dgx_auto_r.Fp8Convert.Convert.{convert_tensors_again, convert_tensors_unchanged}
use qwen3_8_flash_dgx_auto_r.Fp8Convert.Resume.{convert_files_skip, convert_files_turn}
use qwen3_8_flash_dgx_auto_r.Fp8Convert.Turn.{file_ops_lem}

module _ {W Q : Type 0} where
  run-append :
      (d : Checkpoint W Q) (os rest : List (Op W Q)) → run d (os ++ rest) ≡ run (run d os) rest
  unfolding run
  run-append d [] rest = refl
  run-append d (o ∷ os) rest = run-append (step d o) os rest

  -- What the operations of a file's turn do to the slots.
  module _ (f : ℕ) (o : Outcome W Q) (wm : WeightMap) (d : Checkpoint W Q) where
    after : Checkpoint W Q
    after = run d (swap_ops f (d.slots f).bak o ++ save_index wm)

    after-path : o.changed ≡ true → (after.slots f).path ≡ some (whole o.tensors)
    unfolding after swap_ops save_index run step write
    after-path c = ground (arith, eq_refl f)

    after_unchanged : o.changed ≡ false → after.slots ≡ d.slots
    unfolding after swap_ops save_index run step
    after_unchanged c = rw c refl

    after-other : (g : ℕ) → g ≢ f → after.slots g ≡ d.slots g
    unfolding after swap_ops save_index run step write
    after-other g h = ground arith

module _ {W Q : Type 0} (z : Quantizer W Q) (names : ℕ → List ℕ) (originals : ℕ → Tensors W Q)
    (outcomes : ℕ → Outcome W Q)
    (made : (f : ℕ) → convert_tensors z (names f) (begun (originals f)) ≡ some (outcomes f)) where
  abbrev pub converted : ℕ → Option (File W Q)
  converted f = some (whole (outcomes f).tensors)

  -- What a turn finds at the path, and what it makes of it.
  abbrev Found : ℕ → Slot W Q → Type 0
  Found f s =
      (t : Tensors W Q) × (o : Outcome W Q) × (s.path ≡ some (whole t))
      × (convert_tensors z (names f) (begun t) ≡ some o)
      × (o.tensors ≡ (outcomes f).tensors)

  outcome_lem : (f : ℕ) → (outcomes f).tensors ≡ conversion z (names f) (originals f)
  outcome_lem f =
      fun_ext (convert_tensors-conversion z (names f) (begun (originals f)) (outcomes f) (made f))

  -- A shard under its own name: the original, or its conversion. The backup may be there or not.
  abbrev pub IsReady : ℕ → Slot W Q → Type 0
  IsReady f s =
      (s.path ≡ some (whole (originals f)))
      ⊎ (s.path ≡ some (whole (conversion z (names f) (originals f))))

  IsReady-Found : (f : ℕ) (s : Slot W Q) → IsReady f s → Found f s
  IsReady-Found f s (inl p) = (originals f, outcomes f, p, made f, refl)
  IsReady-Found f s (inr p) =
      let o = outcomes f in
      let (r, again) = convert_tensors_again z (names f) (originals f) o (made f) in
      (
        o.tensors,
        record { tensors = o.tensors; recorded = r; changed = false },
        p ∙ ap (λ t. some (whole t)) (sym (outcome_lem f)),
        again,
        refl,
      )

  -- A turn leaves the converted shard at its path.
  turn_path :
      (f : ℕ) (wm : WeightMap) (d : Checkpoint W Q) (t : Tensors W Q) (o : Outcome W Q)
      → (d.slots f).path ≡ some (whole t)
      → convert_tensors z (names f) (begun t) ≡ some o
      → o.tensors ≡ (outcomes f).tensors
      → ((after f o wm d).slots f).path ≡ converted f
  turn_path f wm d t o p h e = elim (Bool-cases o.changed) [
    | inl c ↦ after-path f o wm d c ∙ ap (λ x. some (whole x)) e
    | inr c ↦
        ap (λ s. (s f).path) (after_unchanged f o wm d c)
        ∙ p
        ∙ ap (λ x. some (whole x))
            (sym (convert_tensors_unchanged z (names f) (begun t) o h c).1 ∙ e)
  ]

  -- The turn of a file that is at its path: what it writes, and the slots after it.
  turn :
      (f : ℕ) (wm : WeightMap) (d : Checkpoint W Q)
      → IsReady f (d.slots f)
      → (r : List (Op W Q) × WeightMap) × (file_ops z f (names f) (d.slots f) wm ≡ some r)
        × (((run d r.0).slots f).path ≡ converted f)
        × ((g : ℕ) → g ≢ f → (run d r.0).slots g ≡ d.slots g)
  unfolding after load_file
  turn f wm d k =
      let (t, o, p, h, e) = IsReady-Found f (d.slots f) k in
      let wm' = record_scales o.recorded f wm in
      (
        (swap_ops f (d.slots f).bak o ++ save_index wm', wm'),
        file_ops_lem z f (names f) (d.slots f) wm t o
            (subst (λ q. load_file q ≡ some t) (sym p) refl) h,
        turn_path f wm' d t o p h e,
        after-other f o wm' d,
      )

  -- The files that are still to come are where they should be.
  abbrev AllHere : List ℕ → Checkpoint W Q → Type 0
  AllHere fs d = (g : ℕ) → elem ℕ_discrete g fs ≡ true → IsReady g (d.slots g)

  abbrev Finished : List ℕ → Checkpoint W Q → Checkpoint W Q → Type 0
  Finished fs d d' =
      (g : ℕ)
      → (elem ℕ_discrete g fs ≡ true → is_empty (names g) ≡ false → (d'.slots g).path ≡ converted g)
        × (elem ℕ_discrete g fs ≡ false → d'.slots g ≡ d.slots g)

  Finished-skip :
      (f : ℕ) (fs : List ℕ) (d d' : Checkpoint W Q)
      → is_empty (names f) ≡ true
      → Finished fs d d'
      → Finished (f ∷ fs) d d'
  Finished-skip f fs d d' e done g = (
    λ m busy. elim (elem-cons ℕ_discrete g f fs m) [
      | inl same ↦ cc (ap (λ h. is_empty (names h)) same, e, busy)
      | inr m' ↦ (done g).0 m' busy
    ],
    λ m. (done g).1 (not_elem-cons ℕ_discrete g f fs m).1,
  )

  Finished-turn :
      (f : ℕ) (fs : List ℕ) (d d₁ d' : Checkpoint W Q)
      → distinct ℕ_discrete (f ∷ fs) ≡ true
      → (d₁.slots f).path ≡ converted f
      → ((g : ℕ) → g ≢ f → d₁.slots g ≡ d.slots g)
      → Finished fs d₁ d'
      → Finished (f ∷ fs) d d'
  Finished-turn f fs d d₁ d' once path others done g = (
    λ m busy. elim (elem-cons ℕ_discrete g f fs m) [
      | inl same ↦
          let at_f : (d'.slots f).path ≡ converted f =
            ap (λ s. s.path) ((done f).1 (distinct-cons ℕ_discrete f fs once).0) ∙ path in
          subst (λ h. (d'.slots h).path ≡ converted h) (sym same) at_f
      | inr m' ↦ (done g).0 m' busy
    ],
    λ m. let (other, m') = not_elem-cons ℕ_discrete g f fs m in (done g).1 m' ∙ others g other,
  )

  AllHere-turn :
      (f : ℕ) (fs : List ℕ) (d d₁ : Checkpoint W Q)
      → distinct ℕ_discrete (f ∷ fs) ≡ true
      → ((g : ℕ) → g ≢ f → d₁.slots g ≡ d.slots g)
      → AllHere (f ∷ fs) d
      → AllHere fs d₁
  AllHere-turn f fs d d₁ once others here g m =
      let other : g ≢ f = λ same.
        cc (ap (λ h. elem ℕ_discrete h fs) same, m, (distinct-cons ℕ_discrete f fs once).0) in
      subst (IsReady g) (sym (others g other)) (here g (elem-cons_tail ℕ_discrete g f fs m))

  convert_files-Finished :
      (targets : WeightMap) (fs : List ℕ) (d : Checkpoint W Q) (wm : WeightMap)
      → distinct ℕ_discrete fs ≡ true
      → ((g : ℕ) → names_in g targets ≡ names g)
      → AllHere fs d
      → Finished fs d (run d (convert_files z targets fs d wm))
  unfolding elem run convert_files
  convert_files-Finished targets [] d wm once all here = λ g. (λ m. cc, λ m. refl)
  convert_files-Finished targets (f ∷ fs) d wm once all here =
      let once' = (distinct-cons ℕ_discrete f fs once).1 in
      elim (Bool-cases (is_empty (names_in f targets))) [
        | inl e ↦
            let here' : AllHere fs d = λ g m. here g (elem-cons_tail ℕ_discrete g f fs m) in
            subst (λ os. Finished (f ∷ fs) d (run d os))
              (sym (convert_files_skip z targets f fs d wm e))
              (Finished-skip f fs d (run d (convert_files z targets fs d wm))
                (ap is_empty (sym (all f)) ∙ e)
                (convert_files-Finished targets fs d wm once' all here'))
        | inr e ↦
            let (r, ops, path, others) = turn f wm d (here f (elem_self ℕ_discrete f fs)) in
            let ops' = subst (λ bs. file_ops z f bs (d.slots f) wm ≡ some r) (sym (all f)) ops in
            subst (λ os. Finished (f ∷ fs) d (run d os))
              (sym (convert_files_turn z targets f fs d wm r e ops'))
              (subst (Finished (f ∷ fs) d) (sym (run-append d r.0 _)) (
                Finished-turn f fs d (run d r.0)
                  (run (run d r.0) (convert_files z targets fs (run d r.0) r.1)) once path others
                  (convert_files-Finished targets fs (run d r.0) r.1 once' all
                    (AllHere-turn f fs d (run d r.0) once others here))))
      ]

  -- When each listed file is there under its own name, as the original shard or as its conversion,
  -- with a backup or without, no file is listed twice, and the originals convert without a failed
  -- assertion, then a run to the end leaves the conversion of the original under the name of each
  -- listed file that has a target: each target whose sides are multiples of 128 is quantised, with its
  -- scale beside it; any other tensor, and a target that is FP8 already, is as it was.
  pub main-IsConverted :
      (files : List ℕ) (d : Checkpoint W Q)
      → distinct ℕ_discrete files ≡ true
      → ((g : ℕ) → names_in g d.index ≡ names g)
      → ((g : ℕ) → elem ℕ_discrete g files ≡ true → IsReady g (d.slots g))
      → (f : ℕ) → elem ℕ_discrete f files ≡ true
      → is_empty (names f) ≡ false
      → ((run d (main z files d)).slots f).path
        ≡ some (whole (conversion z (names f) (originals f)))
  unfolding main
  main-IsConverted files d once targets here f m busy =
      (convert_files-Finished d.index files d d.index once targets here f).0 m busy
      ∙ ap (λ t. some (whole t)) (outcome_lem f)
