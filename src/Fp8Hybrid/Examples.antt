-- ===== src/Fp8Hybrid/Examples.antt =====
-- Tests of src/vllm_fp8_hybrid.py, on names as the checkpoint has them.
use qwen3_8_flash_dgx_auto_r.Common.{◌≡◌, ◌↔◌, refl, true, false, List, [], ◌∷◌, ◌++◌}
use qwen3_8_flash_dgx_auto_r.Fp8Hybrid.{Text, codes, is_fp8_layer, get, has_dot}
use qwen3_8_flash_dgx_auto_r.Fp8Hybrid.Paths.{components}
use qwen3_8_flash_dgx_auto_r.Fp8Hybrid.Layers.{AllCovered, targets, is_fp8_layer_iff}
use qwen3_8_flash_dgx_auto_r.Fp8Hybrid.Blocks.{}

abbrev layers : List Text
layers = codes "a.q_proj" ∷ codes "a.k_proj" ∷ []

abbrev packed : List (Text × List Text)
packed = (codes "qk_proj", codes "q_proj" ∷ codes "k_proj" ∷ []) ∷ []

is_fp8_layer_iff_example :
    (is_fp8_layer layers packed (codes "a" ++ b'.' ∷ codes "qk_proj") ≡ true)
    ↔ AllCovered layers
        (targets (components (codes "a")) (codes "qk_proj") (get (codes "qk_proj") packed))
unfolding has_dot
is_fp8_layer_iff_example = is_fp8_layer_iff layers packed (codes "a") (codes "qk_proj") refl refl

-- The fused module is FP8, as both of its projections are; a name inside another name is not.
fused_is_fp8 : is_fp8_layer layers packed (codes "a.qk_proj") ≡ true
unfolding is_fp8_layer
fused_is_fp8 = refl

nested_is_not : is_fp8_layer layers packed (codes "b.a.q_proj") ≡ false
unfolding is_fp8_layer
nested_is_not = refl
