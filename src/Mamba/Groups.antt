-- ===== src/Mamba/Groups.antt =====
-- The Mamba groups of a cache configuration, in src/mamba_utils_guarded.py: get_mamba_groups,
-- get_mamba_group_ids, validate_mamba_state_copy_funcs, and what create of the two contexts takes
-- from them. A MambaSpec of vLLM is a number, equal where the specs are; what the code reads of one
-- is a parameter, and so are the numbers of copy functions by type. A dict with sets for values is an
-- association list in the order of its keys, each with an increasing list. A failed assertion is
-- `none`.
mod Members
mod Examples
use qwen3_8_flash_dgx_auto_r.Common.{
  ℕ, zero, suc, ◌+◌, ◌*◌, Bool, true, false, ◌&&◌, List, [], ◌∷◌, ◌++◌, Option, none, some, ltb,
  ◌==◌, if◌then◌else◌, get_elem?,
}

pub data LayerSpec : Type 0 where
  mamba : ℕ → LayerSpec
  other : LayerSpec

-- One spec for all layers, or UniformTypeKVCacheSpecs: its `first_spec`, and `kv_cache_specs`.
pub data GroupSpec : Type 0 where
  single : LayerSpec → GroupSpec
  uniform : LayerSpec → (ℕ → LayerSpec) → GroupSpec

pub record Group : Type 0 where
  pub kv_cache_spec : GroupSpec
  pub layer_names : List ℕ

abbrev pub Groups : Type 0
Groups = List (ℕ × List ℕ)

abbrev pub first_spec : GroupSpec → LayerSpec
first_spec (single s) = s
first_spec (uniform s specs) = s

abbrev spec_of : GroupSpec → ℕ → LayerSpec
spec_of (single s) layer_name = s
spec_of (uniform s specs) layer_name = specs layer_name

abbrev pub as_mamba : LayerSpec → Option ℕ
as_mamba (mamba spec) = some spec
as_mamba other = none

-- _get_mamba_spec_for_layer
pub get_mamba_spec_for_layer : Group → ℕ → Option ℕ
get_mamba_spec_for_layer g layer_name = as_mamba (spec_of g.kv_cache_spec layer_name)

-- `s.add(i)`, of a set in order
pub insert_id : ℕ → List ℕ → List ℕ
insert_id i [] = i ∷ []
insert_id i (j ∷ js) =
    let rest = insert_id i js in if i == j then j ∷ js else if ltb i j then i ∷ j ∷ js else j ∷ rest

-- `mamba_groups.setdefault(mamba_spec, set()).add(i)`
pub add_group : ℕ → ℕ → Groups → Groups
unfolding insert_id
add_group spec i [] = (spec, i ∷ []) ∷ []
add_group spec i ((k, ids) ∷ groups) =
    let rest = add_group spec i groups in
    if spec == k then (k, insert_id i ids) ∷ groups else (k, ids) ∷ rest

abbrev with_spec : Option ℕ → (ℕ → Option Groups) → Option Groups
with_spec none next = none
with_spec (some spec) next = next spec

-- `for layer_name in kv_cache_group.layer_names`
pub add_layers : Group → ℕ → List ℕ → Groups → Option Groups
unfolding get_mamba_spec_for_layer add_group
add_layers g i [] groups = some groups
add_layers g i (name ∷ names) groups =
    with_spec (get_mamba_spec_for_layer g name)
      (λ spec. add_layers g i names (add_group spec i groups))

abbrev then_groups : Option Groups → (Groups → Option Groups) → Option Groups
then_groups none next = none
then_groups (some groups) next = next groups

-- The loop of get_mamba_groups, from `i` on.
pub add_groups : ℕ → List Group → Groups → Option Groups
unfolding add_layers
add_groups i [] groups = some groups
add_groups i (g ∷ gs) groups =
    then_groups
      (elim (as_mamba (first_spec g.kv_cache_spec)) [
        | none ↦ some groups
        | some spec ↦ add_layers g i g.layer_names groups
      ])
      (add_groups (i + 1) gs)

abbrev some_groups : Groups → Option Groups
some_groups [] = none
some_groups (g ∷ groups) = some (g ∷ groups)

-- get_mamba_groups
pub get_mamba_groups : List Group → Option Groups
unfolding add_groups
get_mamba_groups gs = then_groups (add_groups 0 gs []) some_groups

pub insert_ids : List ℕ → List ℕ → List ℕ
unfolding insert_id
insert_ids [] js = js
insert_ids (i ∷ is) js = insert_id i (insert_ids is js)

-- get_mamba_group_ids
pub get_mamba_group_ids : Groups → List ℕ
unfolding insert_ids
get_mamba_group_ids [] = []
get_mamba_group_ids ((spec, ids) ∷ groups) = insert_ids ids (get_mamba_group_ids groups)

module _ (mamba_type num_shapes block_size num_speculative_blocks mamba_cache_mode : ℕ → ℕ)
    (num_copy_funcs : ℕ → Option ℕ) where
  abbrev has_funcs : Option ℕ → ℕ → Bool
  has_funcs none n = false
  has_funcs (some k) n = k == n

  -- validate_mamba_state_copy_funcs
  pub validate_mamba_state_copy_funcs : Groups → Bool
  validate_mamba_state_copy_funcs [] = true
  validate_mamba_state_copy_funcs ((spec, ids) ∷ groups) =
      has_funcs (num_copy_funcs (mamba_type spec)) (num_shapes spec)
      && validate_mamba_state_copy_funcs groups

  -- "all mamba groups must share cache scheduling parameters"
  pub share_parameters : ℕ → Groups → Bool
  share_parameters first [] = true
  share_parameters first ((spec, ids) ∷ groups) =
      (block_size spec == block_size first)
      && (num_speculative_blocks spec == num_speculative_blocks first)
      && (mamba_cache_mode spec == mamba_cache_mode first)
      && share_parameters first groups

  abbrev add_funcs : Option ℕ → Option ℕ → Option ℕ
  add_funcs none m = none
  add_funcs (some n) none = none
  add_funcs (some n) (some m) = some (n + m)

  abbrev funcs_of : Option ℕ → Option ℕ
  funcs_of none = none
  funcs_of (some spec) = num_copy_funcs (mamba_type spec)

  -- `len(copy_funcs[...]) ... for layer_name in layer_names`
  layer_funcs : Group → List ℕ → Option ℕ
  unfolding get_mamba_spec_for_layer
  layer_funcs g [] = some 0
  layer_funcs g (name ∷ names) =
      add_funcs (funcs_of (get_mamba_spec_for_layer g name)) (layer_funcs g names)

  abbrev group_funcs : Option Group → Option ℕ
  group_funcs none = none
  group_funcs (some g) = layer_funcs g g.layer_names

  -- The sum over `mamba_group_ids`.
  pub entries_per_req : List Group → List ℕ → Option ℕ
  unfolding layer_funcs
  entries_per_req gs [] = some 0
  entries_per_req gs (id ∷ ids) = add_funcs (group_funcs (get_elem? gs id)) (entries_per_req gs ids)

  abbrev sized : ℕ → List ℕ → Option ℕ → Option (ℕ × List ℕ)
  sized max_num_reqs ids none = none
  sized max_num_reqs ids (some n) = some (max_num_reqs * n, ids)

  -- What follows get_mamba_groups; the first key gives the shared parameters.
  sized_for : ℕ → List Group → Option Groups → Option (ℕ × List ℕ)
  unfolding entries_per_req get_mamba_group_ids share_parameters
  sized_for max_num_reqs gs none = none
  sized_for max_num_reqs gs (some []) = none
  sized_for max_num_reqs gs (some ((spec, ids) ∷ groups)) =
      let all_ids = get_mamba_group_ids ((spec, ids) ∷ groups) in
      if share_parameters spec ((spec, ids) ∷ groups)
      then sized max_num_reqs all_ids (entries_per_req gs all_ids)
      else none

  -- MambaCopyBuffers.create: the length of the buffers, and mamba_group_ids.
  pub create : ℕ → List Group → Option (ℕ × List ℕ)
  unfolding sized_for
  create max_num_reqs gs = sized_for max_num_reqs gs (get_mamba_groups gs)
