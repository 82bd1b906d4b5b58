-- ===== src/Fp8Convert.antt =====
-- tools/fp8_convert.py: main, with _save_index, as a list of file operations, each of which can be the
-- last one when the run is interrupted. An exception ends the list. The tensors are parameters, with
-- block_quant and its round trip check, since they are float arithmetic; the name of a tensor says
-- what the pattern TARGETS makes of it. A shard is a function from names to tensors. What the code
-- counts is only printed.
mod Convert
mod Conversion
mod Kept
mod Turn
mod Resume
mod Stuck
mod Finish
mod Examples
use qwen3_8_flash_dgx_auto_r.Common.{
  ℕ, ◌%◌, Bool, true, false, ◌&&◌, List, [], ◌∷◌, ◌++◌, Option, none, some, is_none, ◌==◌, not,
  if◌then◌else◌, set, ℕ_discrete, is_empty, take,
}

-- A name that TARGETS finds, the name that `replace(".weight", ".weight_scale_inv")` makes of it, and
-- any other.
pub data Name : Type 0 where
  weight weight_scale_inv other_name : ℕ → Name

pub Name-discrete : Discrete Name
Name-discrete = hlevel ℕ_discrete

pub data Tensor (W Q : Type 0) : Type 0 where
  plain : W → Tensor W Q
  fp8 : Q → Tensor W Q

abbrev pub Tensors : Type 0 → Type 0 → Type 0
Tensors W Q = Name → Option (Tensor W Q)

-- A file that save_file has begun and not finished is torn.
pub data File (W Q : Type 0) : Type 0 where
  torn : File W Q
  whole : Tensors W Q → File W Q

-- `path`, `path + ".bf16.bak"` and `path + ".fp8.tmp"`.
pub record Slot (W Q : Type 0) : Type 0 where
  pub path : Option (File W Q)
  pub bak : Option (File W Q)
  pub tmp : Option (File W Q)

-- `weight_map`, with the files numbered in the order of their names.
abbrev pub WeightMap : Type 0
WeightMap = List (Name × ℕ)

pub record Checkpoint (W Q : Type 0) : Type 0 where
  pub slots : ℕ → Slot W Q
  pub index : WeightMap
  pub index_tmp : Option WeightMap

pub data Op (W Q : Type 0) : Type 0 where
  begin_save rename_path remove_path replace_path : ℕ → Op W Q
  end_save : ℕ → Tensors W Q → Op W Q
  dump_index replace_index : WeightMap → Op W Q

module _ {W Q : Type 0} where
  pub write : ℕ → Slot W Q → Checkpoint W Q → Checkpoint W Q
  write f s d = record d { slots = λ g. if g == f then s else d.slots g }

  pub step : Checkpoint W Q → Op W Q → Checkpoint W Q
  unfolding write
  step d (begin_save f) = write f (record (d.slots f) { tmp = some torn }) d
  step d (end_save f t) = write f (record (d.slots f) { tmp = some (whole t) }) d
  step d (rename_path f) = write f (record (d.slots f) { path = none; bak = (d.slots f).path }) d
  step d (remove_path f) = write f (record (d.slots f) { path = none }) d
  step d (replace_path f) = write f (record (d.slots f) { path = (d.slots f).tmp; tmp = none }) d
  step d (dump_index wm) = record d { index_tmp = some wm }
  step d (replace_index wm) = record d { index = wm; index_tmp = none }

  pub run : Checkpoint W Q → List (Op W Q) → Checkpoint W Q
  run d [] = d
  run d (o ∷ os) = run (step d o) os

  -- `tensors[name] = value`, or `tensors.pop(name)` where the value is none.
  pub put : Name → Option (Tensor W Q) → Tensors W Q → Tensors W Q
  put n v t m = elim (Name-discrete m n) [ yes _ ↦ v | no _ ↦ t m ]

  -- load_file, on a path that may not exist.
  pub load_file : Option (File W Q) → Option (Tensors W Q)
  load_file none = none
  load_file (some torn) = none
  load_file (some (whole t)) = some t

-- `tensors`, the scales that `wm` gets, by the names of their tensors, and `changed`.
pub record Outcome (W Q : Type 0) : Type 0 where
  pub tensors : Tensors W Q
  pub recorded : List ℕ
  pub changed : Bool

module _ {W Q : Type 0} where
  abbrev pub begun : Tensors W Q → Outcome W Q
  begun t = record { tensors = t; recorded = []; changed = false }

  -- `if changed:`
  pub swap_ops : ℕ → Option (File W Q) → Outcome W Q → List (Op W Q)
  swap_ops f bak o =
      if o.changed
      then begin_save f
        ∷ end_save f o.tensors
        ∷ (if is_none bak then rename_path f else remove_path f)
        ∷ replace_path f
        ∷ []
      else []

-- The targets of one file, in the order of the index: `by_file[fname]`.
pub names_in : ℕ → WeightMap → List ℕ
names_in f [] = []
names_in f ((weight b, g) ∷ wm) = let rest = names_in f wm in if g == f then b ∷ rest else rest
names_in f ((weight_scale_inv b, g) ∷ wm) = names_in f wm
names_in f ((other_name b, g) ∷ wm) = names_in f wm

-- `wm[scale_name] = fname`, for the scales of one file.
pub record_scales : List ℕ → ℕ → WeightMap → WeightMap
record_scales [] f wm = wm
record_scales (b ∷ bs) f wm = record_scales bs f (set Name-discrete (weight_scale_inv b) f wm)

-- _save_index
pub save_index : {W Q : Type 0} → WeightMap → List (Op W Q)
save_index wm = dump_index wm ∷ replace_index wm ∷ []

-- The shape, the quantised tensor with its scale, and the test `rel < 0.10`.
pub record Quantizer (W Q : Type 0) : Type 0 where
  pub rows : W → ℕ
  pub cols : W → ℕ
  pub block_quant : W → Q × W
  pub is_accurate : W → Bool

module _ {W Q : Type 0} (z : Quantizer W Q) where
  -- `not (w.shape[0] % BLOCK or w.shape[1] % BLOCK)`
  pub fits_blocks : W → Bool
  fits_blocks w = z.rows w % 128 == 0 && z.cols w % 128 == 0

  -- The body of the loop over the names of a file; none is the failed assertion.
  pub convert_tensor : ℕ → Tensor W Q → Outcome W Q → Option (Outcome W Q)
  unfolding put fits_blocks
  convert_tensor b (fp8 q) o =
      let tensors = put (weight b) (some (fp8 q)) (put (weight b) none o.tensors) in
      some (record o {
        tensors = tensors;
        recorded =
            if is_none (tensors (weight_scale_inv b)) then o.recorded else o.recorded ++ b ∷ [];
      })
  convert_tensor b (plain w) o =
      let rest = put (weight b) none o.tensors in
      let (q, scale) = z.block_quant w in
      if fits_blocks w
      then if z.is_accurate w
        then some (record {
          tensors =
              put (weight_scale_inv b) (some (plain scale)) (put (weight b) (some (fp8 q)) rest);
          recorded = o.recorded ++ b ∷ [];
          changed = true;
        })
        else none
      else some (record o { tensors = put (weight b) (some (plain w)) rest })

  -- The loop; `tensors.pop(name)` raises KeyError where the shard has no such tensor.
  pub convert_tensors : List ℕ → Outcome W Q → Option (Outcome W Q)
  unfolding convert_tensor
  convert_tensors [] o = some o
  convert_tensors (b ∷ bs) o = elim (o.tensors (weight b)) [
    | none ↦ none
    | some x ↦ elim (convert_tensor b x o) [ none ↦ none | some o' ↦ convert_tensors bs o' ]
  ]

  -- What a file's turn writes, with `wm` after it; none is an exception.
  pub file_ops : ℕ → List ℕ → Slot W Q → WeightMap → Option (List (Op W Q) × WeightMap)
  unfolding convert_tensors record_scales save_index swap_ops load_file
  file_ops f names s wm = elim (load_file s.path) [
    | none ↦ none
    | some t ↦ elim (convert_tensors names (begun t)) [
      | none ↦ none
      | some o ↦
          let wm' = record_scales o.recorded f wm in
          some (swap_ops f s.bak o ++ save_index wm', wm')
    ]
  ]

  -- The loop over sorted(by_file.items()): a file with no target is not in by_file.
  pub convert_files : WeightMap → List ℕ → Checkpoint W Q → WeightMap → List (Op W Q)
  unfolding file_ops names_in run
  convert_files targets [] d wm = []
  convert_files targets (f ∷ fs) d wm =
      let skipped = convert_files targets fs d wm in
      let taken : List (Op W Q) = elim (file_ops f (names_in f targets) (d.slots f) wm) [
        | none ↦ []
        | some (ops, wm') ↦ ops ++ convert_files targets fs (run d ops) wm'
      ] in
      if is_empty (names_in f targets) then skipped else taken

  -- main, for the files of the checkpoint in order.
  pub main : List ℕ → Checkpoint W Q → List (Op W Q)
  unfolding convert_files
  main files d = convert_files d.index files d d.index

-- A run that is cut off after some of its operations.
pub attempt : {W Q : Type 0} → Quantizer W Q → List ℕ → ℕ → Checkpoint W Q → Checkpoint W Q
attempt z files operations d = run d (take operations (main z files d))

pub attempts : {W Q : Type 0} → Quantizer W Q → List ℕ → List ℕ → Checkpoint W Q → Checkpoint W Q
unfolding attempt
attempts z files [] d = d
attempts z files (n ∷ more) d = attempts z files more (attempt z files n d)
