-- ===== src/Repack/Resume.antt =====
-- Interrupted and repeated runs of tools/quantize_lm_head_int8.py.
use qwen3_8_flash_dgx_auto_r.Common.{
  ℕ, zero, suc, ◌≡◌, refl, sym, subst, Bool, true, false, List, [], ◌∷◌, Option, none, some, get_or,
  take,
}
use qwen3_8_flash_dgx_auto_r.Repack.{
  Head, File, Dir, Op, step, run, load, make_room, repack, main, main_on, source, update_index,
}

-- How far the repacking of a checkpoint has come.
pub data Phase : Type 0 where
  untouched backed_up moved swapped finished : Phase

-- A run that is cut off after some of its operations.
pub record Attempt : Type 0 where
  pub dry_run : Bool
  pub shard_given : Bool
  pub operations : ℕ

module _ {W Q T : Type 0} (quantize : W → Q) where
  pub attempt : Attempt → Dir W Q T → Dir W Q T
  attempt a d = run d (take a.operations (get_or (main quantize a.dry_run a.shard_given d) []))

  pub attempts : List Attempt → Dir W Q T → Dir W Q T
  unfolding attempt
  attempts [] d = d
  attempts (a ∷ more) d = attempts more (attempt a d)

  module _ (w : W) (rest : T) where
    abbrev pub original : Option (File W Q T)
    original = some (File.whole (record { head = Head.bf16 w; tensors = rest }))

    abbrev pub repacked : Option (File W Q T)
    repacked = some (File.whole (record { head = Head.int8 (quantize w); tensors = rest }))

    pub dir_at : Phase → Option (File W Q T) → Option (File W Q T) → Dir W Q T
    dir_at untouched t y = record {
      shard = original;
      bak = none;
      tmp = t;
      dry = y;
      has_weight = true;
      has_qweight = false;
    }
    dir_at backed_up t y = record {
      shard = original;
      bak = original;
      tmp = t;
      dry = y;
      has_weight = true;
      has_qweight = false;
    }
    dir_at moved t y = record {
      shard = none;
      bak = original;
      tmp = t;
      dry = y;
      has_weight = true;
      has_qweight = false;
    }
    dir_at swapped t y = record {
      shard = repacked;
      bak = original;
      tmp = t;
      dry = y;
      has_weight = true;
      has_qweight = false;
    }
    dir_at finished t y = record {
      shard = repacked;
      bak = original;
      tmp = t;
      dry = y;
      has_weight = false;
      has_qweight = true;
    }

    -- The checkpoint is in one of the phases, whatever the scratch files hold.
    pub IsKept : Dir W Q T → Type 0
    IsKept d =
        (phase : Phase) × (t : Option (File W Q T)) × (y : Option (File W Q T)) × (d
          ≡ dir_at phase t y)

    -- Every state that a list of operations goes through.
    abbrev AreKept : Dir W Q T → List (Op W Q T) → Type 0
    AreKept d [] = IsKept d
    AreKept d (o ∷ os) = IsKept d × AreKept (step d o) os

    run_take-IsKept :
        (n : ℕ) (d : Dir W Q T) (os : List (Op W Q T)) → AreKept d os → IsKept (run d (take n os))
    unfolding run
    run_take-IsKept zero d [] k = k
    run_take-IsKept zero d (o ∷ os) k = k.0
    run_take-IsKept (suc n) d [] k = k
    run_take-IsKept (suc n) d (o ∷ os) k = run_take-IsKept n (step d o) os k.1

    pub dir_at-IsKept : (phase : Phase) (t y : Option (File W Q T)) → IsKept (dir_at phase t y)
    unfolding IsKept
    dir_at-IsKept phase t y = (phase, t, y, refl)

    main_on-AreKept :
        (dry_run : Bool) (phase : Phase) (t y : Option (File W Q T))
        → let d = dir_at phase t y in
          AreKept d (get_or (main_on quantize dry_run d (load (source d))) [])
    unfolding main_on repack make_room update_index load source dir_at step dir_at-IsKept
    main_on-AreKept true untouched t y =
        (dir_at-IsKept untouched t y, (dir_at-IsKept untouched t _, dir_at-IsKept untouched t _))
    main_on-AreKept true backed_up t y =
        (dir_at-IsKept backed_up t y, (dir_at-IsKept backed_up t _, dir_at-IsKept backed_up t _))
    main_on-AreKept true moved t y =
        (dir_at-IsKept moved t y, (dir_at-IsKept moved t _, dir_at-IsKept moved t _))
    main_on-AreKept true swapped t y = dir_at-IsKept swapped t y
    main_on-AreKept true finished t y = dir_at-IsKept finished t y
    main_on-AreKept false untouched t y = (
      dir_at-IsKept untouched t y,
      (
        dir_at-IsKept untouched _ y,
        (
          dir_at-IsKept untouched _ y,
          (dir_at-IsKept moved _ y, (dir_at-IsKept swapped _ y, dir_at-IsKept finished _ y)),
        ),
      ),
    )
    main_on-AreKept false backed_up t y = (
      dir_at-IsKept backed_up t y,
      (
        dir_at-IsKept backed_up _ y,
        (
          dir_at-IsKept backed_up _ y,
          (dir_at-IsKept moved _ y, (dir_at-IsKept swapped _ y, dir_at-IsKept finished _ y)),
        ),
      ),
    )
    main_on-AreKept false moved t y = (
      dir_at-IsKept moved t y,
      (
        dir_at-IsKept moved _ y,
        (dir_at-IsKept moved _ y, (dir_at-IsKept swapped _ y, dir_at-IsKept finished _ y)),
      ),
    )
    main_on-AreKept false swapped t y = (dir_at-IsKept swapped t y, dir_at-IsKept finished t y)
    main_on-AreKept false finished t y = dir_at-IsKept finished t y

    main-AreKept :
        (dry_run shard_given : Bool) (phase : Phase) (t y : Option (File W Q T))
        → let d = dir_at phase t y in AreKept d (get_or (main quantize dry_run shard_given d) [])
    unfolding main dir_at
    main-AreKept dry_run true untouched t y = main_on-AreKept dry_run untouched t y
    main-AreKept dry_run true backed_up t y = main_on-AreKept dry_run backed_up t y
    main-AreKept dry_run true moved t y = main_on-AreKept dry_run moved t y
    main-AreKept dry_run true swapped t y = main_on-AreKept dry_run swapped t y
    main-AreKept dry_run false untouched t y = main_on-AreKept dry_run untouched t y
    main-AreKept dry_run false backed_up t y = main_on-AreKept dry_run backed_up t y
    main-AreKept dry_run false moved t y = main_on-AreKept dry_run moved t y
    main-AreKept dry_run false swapped t y = main_on-AreKept dry_run swapped t y
    main-AreKept dry_run shard_given finished t y = dir_at-IsKept finished t y

    attempt-IsKept : (a : Attempt) (d : Dir W Q T) → IsKept d → IsKept (attempt a d)
    unfolding attempt IsKept
    attempt-IsKept a d (phase, t, y, e) =
        subst (λ d'. IsKept (attempt a d')) (sym e)
          (run_take-IsKept a.operations (dir_at phase t y) _
            (main-AreKept a.dry_run a.shard_given phase t y))

    -- However often runs of the head repacking are cut off, and wherever, a checkpoint that is in
    -- one of the phases stays in one of them, and each has the original shard under its own name or
    -- as the backup.
    pub attempts-IsKept :
        (runs : List Attempt) (d : Dir W Q T) → IsKept d → IsKept (attempts runs d)
    unfolding attempts
    attempts-IsKept [] d k = k
    attempts-IsKept (a ∷ more) d k = attempts-IsKept more (attempt a d) (attempt-IsKept a d k)

    -- What a run that is not cut off leaves.
    abbrev pub IsFinished : Dir W Q T → Type 0
    IsFinished d =
        (d.shard ≡ repacked) × (d.bak ≡ original) × (d.has_weight ≡ false) × (d.has_qweight ≡ true)

    main-IsFinished :
        (phase : Phase) (t y : Option (File W Q T))
        → let d = dir_at phase t y in IsFinished (run d (get_or (main quantize false false d) []))
    unfolding main main_on repack make_room update_index load source dir_at step run
    main-IsFinished untouched t y = (refl, refl, refl, refl)
    main-IsFinished backed_up t y = (refl, refl, refl, refl)
    main-IsFinished moved t y = (refl, refl, refl, refl)
    main-IsFinished swapped t y = (refl, refl, refl, refl)
    main-IsFinished finished t y = (refl, refl, refl, refl)

    -- After any number of runs that were cut off anywhere, a run to the end finishes the job: the
    -- shard holds the quantised head, the backup the original, and the index the new names.
    pub attempts-main-IsFinished :
        (runs : List Attempt) (t y : Option (File W Q T))
        → let d = attempts runs (dir_at untouched t y) in
          IsFinished (run d (get_or (main quantize false false d) []))
    unfolding IsKept
    attempts-main-IsFinished runs t y =
        let (phase, t', y', e) =
          attempts-IsKept runs (dir_at untouched t y) (dir_at-IsKept untouched t y) in
        subst (λ d. IsFinished (run d (get_or (main quantize false false d) []))) (sym e)
          (main-IsFinished phase t' y')
