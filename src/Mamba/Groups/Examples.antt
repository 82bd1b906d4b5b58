-- ===== src/Mamba/Groups/Examples.antt =====
-- Tests of the Mamba groups of src/mamba_utils_guarded.py: an attention group between two Mamba
-- groups, of which the second has two specs.
use qwen3_8_flash_dgx_auto_r.Common.{
  ℕ, ◌≡◌, refl, false, List, [], ◌∷◌, Option, none, some, ◌==◌, if◌then◌else◌,
}
use qwen3_8_flash_dgx_auto_r.Mamba.Groups.{
  LayerSpec, Group, Groups, mamba, other, single, uniform, get_mamba_groups, add_groups, add_layers,
  add_group, insert_id, get_mamba_spec_for_layer, get_mamba_group_ids, insert_ids,
  validate_mamba_state_copy_funcs, share_parameters, create, sized_for, entries_per_req,
  layer_funcs,
}
use qwen3_8_flash_dgx_auto_r.Mamba.Groups.Members.{}

abbrev specs : ℕ → LayerSpec
specs layer = if layer == 5 then mamba 1 else mamba 2

abbrev groups : List Group
groups =
    record { kv_cache_spec = single (mamba 1); layer_names = 3 ∷ [] }
    ∷ record { kv_cache_spec = single other; layer_names = 4 ∷ [] }
    ∷ record { kv_cache_spec = uniform (mamba 1) specs; layer_names = 5 ∷ 6 ∷ [] }
    ∷ []

abbrev by_spec : Groups
by_spec = (1, 0 ∷ 2 ∷ []) ∷ (2, 2 ∷ []) ∷ []

grouped : get_mamba_groups groups ≡ some by_spec
unfolding get_mamba_groups add_groups add_layers add_group insert_id get_mamba_spec_for_layer
grouped = refl

abbrev funcs : ℕ → Option ℕ
funcs kind = if kind == 9 then some 2 else none

create_test :
    create (λ spec. 9) (λ spec. 4) (λ spec. 16) (λ spec. 2) (λ spec. 0) funcs 8 groups
    ≡ some (48, 0 ∷ 2 ∷ [])
unfolding create sized_for entries_per_req layer_funcs share_parameters get_mamba_group_ids
    insert_ids get_mamba_groups add_groups add_layers add_group insert_id get_mamba_spec_for_layer
create_test = refl

no_funcs_test :
    validate_mamba_state_copy_funcs
      (λ spec. 7)
      (λ spec. 2)
      (λ spec. 16)
      (λ spec. 2)
      (λ spec. 0)
      funcs
      by_spec
    ≡ false
unfolding validate_mamba_state_copy_funcs
no_funcs_test = refl
