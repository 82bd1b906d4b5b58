-- ===== src/StripIndex.antt =====
-- tools/strip_ngram_index.py as a list of file operations, each of which can be the last one when
-- the run is interrupted. Whether a name contains ".ngram_embedding.shard_" is a parameter.
mod Backup
mod Examples
use qwen3_8_flash_dgx_auto_r.Common.{
  Bool, true, false, List, [], ◌∷◌, ◌++◌, Option, none, some, is_empty, if◌then◌else◌,
}

-- A json file; `torn` is one whose writing has begun and has not ended.
pub data Json (N : Type 0) : Type 0 where
  torn : Json N
  weight_map : List N → Json N

-- model.safetensors.index.json, its `.with-ngram.bak` and its `.tmp`.
pub record IndexDir (N : Type 0) : Type 0 where
  pub index : List N
  pub bak : Option (Json N)
  pub tmp : Option (Json N)

-- shutil.copy creates the backup and then fills it.
pub data Op (N : Type 0) : Type 0 where
  begin_copy end_copy begin_dump : Op N
  end_dump replace_index : List N → Op N

module _ {N : Type 0} where
  pub step : IndexDir N → Op N → IndexDir N
  step d begin_copy = record d { bak = some torn }
  step d end_copy = record d { bak = some (weight_map d.index) }
  step d begin_dump = record d { tmp = some torn }
  step d (end_dump names) = record d { tmp = some (weight_map names) }
  step d (replace_index names) = record d { index = names; tmp = none }

  pub run : IndexDir N → List (Op N) → IndexDir N
  run d [] = d
  run d (o ∷ os) = run (step d o) os

  module _ (is_ngram : N → Bool) where
    -- `removed`
    pub removed : List N → List N
    removed [] = []
    removed (n ∷ ns) = if is_ngram n then n ∷ removed ns else removed ns

    -- The weight map after `del`.
    pub stripped : List N → List N
    stripped [] = []
    stripped (n ∷ ns) = if is_ngram n then stripped ns else n ∷ stripped ns

    -- `if not os.path.exists(...): shutil.copy(...)`
    backup_ops : Option (Json N) → List (Op N)
    backup_ops none = begin_copy ∷ end_copy ∷ []
    backup_ops (some j) = []

    pub strip_index : IndexDir N → List (Op N)
    unfolding removed stripped backup_ops
    strip_index d =
        let names = stripped d.index in
        if is_empty (removed d.index)
        then []
        else backup_ops d.bak ++ begin_dump ∷ end_dump names ∷ replace_index names ∷ []
