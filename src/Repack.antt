-- ===== src/Repack.antt =====
-- tools/quantize_lm_head_int8.py: main and _repack as a list of file operations, each of which can be
-- the last one when the run is interrupted. The tensors and `quantize` are parameters; a file that
-- save_file has begun and not finished is `torn`.
mod Resume
mod Examples
use qwen3_8_flash_dgx_auto_r.Common.{
  Bool, true, false, not, ◌&&◌, ◌||◌, List, [], ◌∷◌, ◌++◌, Option, none, some, is_none,
  if◌then◌else◌,
}

pub data Head (W Q : Type 0) : Type 0 where
  bf16 : W → Head W Q
  int8 : Q → Head W Q
  no_head : Head W Q

-- What a shard holds: the head, and the other tensors.
pub record Shard (W Q T : Type 0) : Type 0 where
  pub head : Head W Q
  pub tensors : T

pub data File (W Q T : Type 0) : Type 0 where
  torn : File W Q T
  whole : Shard W Q T → File W Q T

-- shard_path, bak_path, `.int8head.tmp` and `.int8head`; and which names of the head the index has.
pub record Dir (W Q T : Type 0) : Type 0 where
  pub shard : Option (File W Q T)
  pub bak : Option (File W Q T)
  pub tmp : Option (File W Q T)
  pub dry : Option (File W Q T)
  pub has_weight : Bool
  pub has_qweight : Bool

pub data Op (W Q T : Type 0) : Type 0 where
  begin_save begin_dry rename_shard remove_shard replace_shard replace_index : Op W Q T
  end_save end_dry : Shard W Q T → Op W Q T

module _ {W Q T : Type 0} where
  pub step : Dir W Q T → Op W Q T → Dir W Q T
  step d begin_save = record d { tmp = some torn }
  step d (end_save s) = record d { tmp = some (whole s) }
  step d begin_dry = record d { dry = some torn }
  step d (end_dry s) = record d { dry = some (whole s) }
  step d rename_shard = record d { shard = none; bak = d.shard }
  step d remove_shard = record d { shard = none }
  step d replace_shard = record d { shard = d.tmp; tmp = none }
  step d replace_index = record d { has_weight = false; has_qweight = true }

  pub run : Dir W Q T → List (Op W Q T) → Dir W Q T
  run d [] = d
  run d (o ∷ os) = run (step d o) os

  -- safe_open, on a path that may not exist.
  load : Option (File W Q T) → Option (Shard W Q T)
  load none = none
  load (some torn) = none
  load (some (whole s)) = some s

  -- `src_path`
  source : Dir W Q T → Option (File W Q T)
  source d = elim d.shard [ none ↦ d.bak | some f ↦ some f ]

  -- `if not os.path.exists(bak_path)` and its `elif`.
  make_room : Option (File W Q T) → Option (File W Q T) → List (Op W Q T)
  make_room none shard = rename_shard ∷ []
  make_room (some b) none = []
  make_room (some b) (some s) = remove_shard ∷ []

  module _ (quantize : W → Q) where
    -- _repack
    pub repack : Bool → Dir W Q T → W → T → List (Op W Q T)
    unfolding make_room
    repack dry_run d w rest =
        let s : Shard W Q T = record { head = int8 (quantize w); tensors = rest } in
        if dry_run
        then begin_dry ∷ end_dry s ∷ []
        else begin_save ∷ end_save s ∷ (make_room d.bak d.shard ++ replace_shard ∷ [])

    -- `del wm["lm_head.weight"]` raises KeyError where the index has no such name.
    update_index : Dir W Q T → List (Op W Q T)
    update_index d = if d.has_weight then replace_index ∷ [] else []

    -- What follows reading the shard; `none` is an exit with an error before anything is written.
    main_on : Bool → Dir W Q T → Option (Shard W Q T) → Option (List (Op W Q T))
    unfolding repack update_index
    main_on dry_run d none = none
    main_on dry_run d (some s) = elim s.head [
      | bf16 w ↦ some (repack dry_run d w s.tensors ++ (if dry_run then [] else update_index d))
      | int8 q ↦ if dry_run then none else some (update_index d)
      | no_head ↦ none
    ]

    -- main; `shard_given` says whether the option --shard names the shard.
    pub main : Bool → Bool → Dir W Q T → Option (List (Op W Q T))
    unfolding main_on load source
    main dry_run shard_given d =
        if not d.has_weight && d.has_qweight
        then some []
        else if shard_given || d.has_weight
        then main_on dry_run d (load (source d))
        else none
