-- ===== src/Fp8Convert/Resume.antt =====
-- Interrupted and repeated runs of tools/fp8_convert.py.
use qwen3_8_flash_dgx_auto_r.Common.{
  ℕ, zero, suc, ◌≡◌, sym, subst, inl, inr, Bool-cases, Option-cases, true, false, List, [], ◌∷◌,
  ◌++◌, none, some, is_empty, take,
}
use qwen3_8_flash_dgx_auto_r.Fp8Convert.{
  Tensors, WeightMap, Checkpoint, Op, step, run, Quantizer, names_in, file_ops, convert_files, main,
  attempt, attempts,
}
use qwen3_8_flash_dgx_auto_r.Fp8Convert.Kept.{AreKept, AllKept, AllKept-append}
use qwen3_8_flash_dgx_auto_r.Fp8Convert.Turn.{file_ops-AllKept}

-- The three ways that a turn of the loop goes.
module _ {W Q : Type 0} (z : Quantizer W Q) (targets : WeightMap) (f : ℕ) (fs : List ℕ)
    (d : Checkpoint W Q) (wm : WeightMap) where
  pub convert_files_skip :
      is_empty (names_in f targets) ≡ true
      → convert_files z targets (f ∷ fs) d wm ≡ convert_files z targets fs d wm
  unfolding convert_files
  convert_files_skip e = rw e

  pub convert_files_raise :
      is_empty (names_in f targets) ≡ false
      → file_ops z f (names_in f targets) (d.slots f) wm ≡ none
      → convert_files z targets (f ∷ fs) d wm ≡ []
  unfolding convert_files
  convert_files_raise e h = rw (e, h, convert_files)

  pub convert_files_turn :
      (r : List (Op W Q) × WeightMap)
      → is_empty (names_in f targets) ≡ false
      → file_ops z f (names_in f targets) (d.slots f) wm ≡ some r
      → convert_files z targets (f ∷ fs) d wm ≡ r.0 ++ convert_files z targets fs (run d r.0) r.1
  unfolding convert_files
  convert_files_turn r e h = rw (e, h, convert_files)

module _ {W Q : Type 0} (z : Quantizer W Q) (names : ℕ → List ℕ) (originals : ℕ → Tensors W Q) where
  run-AreKept :
      (d : Checkpoint W Q) (os : List (Op W Q))
      → AllKept z names originals d os
      → AreKept z names originals (run d os)
  unfolding run
  run-AreKept d [] k = k
  run-AreKept d (o ∷ os) k = run-AreKept (step d o) os k.1

  run-take-AreKept :
      (n : ℕ) (d : Checkpoint W Q) (os : List (Op W Q))
      → AllKept z names originals d os
      → AreKept z names originals (run d (take n os))
  unfolding run
  run-take-AreKept zero d [] k = k
  run-take-AreKept zero d (o ∷ os) k = k.0
  run-take-AreKept (suc n) d [] k = k
  run-take-AreKept (suc n) d (o ∷ os) k = run-take-AreKept n (step d o) os k.1

  convert_files-AllKept :
      (targets : WeightMap) (fs : List ℕ) (d : Checkpoint W Q) (wm : WeightMap)
      → AreKept z names originals d
      → ((g : ℕ) → names_in g wm ≡ names g)
      → ((g : ℕ) → names_in g targets ≡ names g)
      → AllKept z names originals d (convert_files z targets fs d wm)
  unfolding convert_files
  convert_files-AllKept targets [] d wm v same all = v
  convert_files-AllKept targets (f ∷ fs) d wm v same all =
      let Kept_ops = AllKept z names originals d in
      elim (Bool-cases (is_empty (names_in f targets))) [
        | inl e ↦
            subst Kept_ops (sym (convert_files_skip z targets f fs d wm e))
              (convert_files-AllKept targets fs d wm v same all)
        | inr e ↦ elim (Option-cases (file_ops z f (names_in f targets) (d.slots f) wm)) [
          | inl h ↦ subst Kept_ops (sym (convert_files_raise z targets f fs d wm e h)) v
          | inr (r, h) ↦
              let (ok, same') =
                file_ops-AllKept z names originals f d wm r v same
                  (subst (λ bs. file_ops z f bs (d.slots f) wm ≡ some r) (all f) h) in
              subst Kept_ops (sym (convert_files_turn z targets f fs d wm r e h)) (
                AllKept-append z names originals d r.0 _ ok
                  (λ v'. convert_files-AllKept targets fs (run d r.0) r.1 v' same' all))
        ]
      ]

  attempt-AreKept :
      (files : List ℕ) (n : ℕ) (d : Checkpoint W Q)
      → AreKept z names originals d
      → AreKept z names originals (attempt z files n d)
  unfolding attempt main
  attempt-AreKept files n d v =
      run-take-AreKept n d _ (convert_files-AllKept d.index files d d.index v v.targets v.targets)

  -- However often runs of fp8_convert.py are cut off, and wherever: when each shard is the original or
  -- its conversion, or has been moved away, with the original under its own name or as the backup,
  -- then so it is after the runs, and the targets are those that they were.
  pub attempts-AreKept :
      (files runs : List ℕ) (d : Checkpoint W Q)
      → AreKept z names originals d
      → AreKept z names originals (attempts z files runs d)
  unfolding attempts
  attempts-AreKept files [] d v = v
  attempts-AreKept files (n ∷ more) d v =
      attempts-AreKept files more (attempt z files n d) (attempt-AreKept files n d v)
