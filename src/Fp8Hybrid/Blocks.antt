-- ===== src/Fp8Hybrid/Blocks.antt =====
-- The check of the block size in src/vllm_fp8_hybrid.py.
use native.Mathlib.Nat.{mul_comm}
use qwen3_8_flash_dgx_auto_r.Common.{
  ℕ, ◌≡◌, ◌*◌, ◌<◌, refl, ap, ◌∙◌, inl, inr, Bool-cases, List, [], ◌∷◌, ◌++◌, arith, suc, zero,
  get_elem?, some, ◌/◌, ◌%◌,
}
use qwen3_8_flash_dgx_auto_r.Fp8Hybrid.{
  Text, Metadata, accepted, get, detect, least, check_block, check_shapes, validate, shape_of,
  dot_weight, dot_weight_scale_inv, maybe_update_config, text_lt,
}

div_exact : (a s : ℕ) → 0 < s → a % s ≡ 0 → a ≡ s * (a / s)
div_exact a s h e = grind arith

exact_block : (a s : ℕ) → 0 < s → a % s ≡ 0 → a / s ≡ 128 → a ≡ 128 * s
exact_block a s h e q = div_exact a s h e ∙ ap (λ n. s * n) q ∙ mul_comm s 128

-- What an accepted block says of the sizes.
check_block-accepted :
    (out_f in_f s0 s1 : ℕ)
    → check_block out_f in_f s0 s1 ≡ accepted
    → (out_f ≡ 128 * s0) × (in_f ≡ 128 * s1)
unfolding check_block
check_block-accepted out_f in_f s0 s1 e = (
  exact_block out_f s0 (ground arith) (ground arith) (ground arith),
  exact_block in_f s1 (ground arith) (ground arith) (ground arith),
)

abbrev IsBlocked : List ℕ → List ℕ → Type 0
IsBlocked w s = (s0 : ℕ) × (s1 : ℕ) × (s ≡ s0 ∷ s1 ∷ []) × (w ≡ (128 * s0) ∷ (128 * s1) ∷ [])

check_shapes-accepted : (w s : List ℕ) → check_shapes w s ≡ accepted → IsBlocked w s
unfolding check_shapes
check_shapes-accepted [] s e = cc
check_shapes-accepted (w ∷ ws) [] e = cc
check_shapes-accepted (w ∷ ws) (s0 ∷ []) e = cc
check_shapes-accepted (w ∷ ws) (s0 ∷ s1 ∷ s2 ∷ ss) e = cc
check_shapes-accepted (w ∷ []) (s0 ∷ s1 ∷ []) e = cc
check_shapes-accepted (out_f ∷ in_f ∷ []) (s0 ∷ s1 ∷ []) e =
    let (p, q) = check_block-accepted out_f in_f s0 s1 e in (s0, s1, refl, cc)
check_shapes-accepted (out_f ∷ in_f ∷ w ∷ ws) (s0 ∷ s1 ∷ []) e = cc

get_elem?-second :
    (a b : Text) (ns : List Text) (i : ℕ) {c : Text}
    → get_elem? (a ∷ ns) i ≡ some c
    → (j : ℕ) × (get_elem? (a ∷ b ∷ ns) j ≡ some c)
get_elem?-second a b ns zero at = (0, at)
get_elem?-second a b ns (suc i) at = (suc (suc i), at)

least-mem :
    (name : Text) (ns : List Text) → (i : ℕ) × (get_elem? (name ∷ ns) i ≡ some (least name ns))
unfolding least
least-mem name [] = (0, refl)
least-mem name (n ∷ ns) = elim (Bool-cases (text_lt n name)) [
  | inl e ↦ let (i, at) = least-mem n ns in (suc i, rw e at)
  | inr e ↦ let (i, at) = least-mem name ns in rw e (get_elem?-second name n ns i at)
]

-- A layer with the shapes of its tensors.
abbrev pub IsBlockedLayer : Metadata → Text → Type 0
IsBlockedLayer md name =
    IsBlocked (shape_of (get (name ++ dot_weight) md))
      (shape_of (get (name ++ dot_weight_scale_inv) md))

validate-accepted :
    (md : Metadata) (layers : List Text)
    → validate md layers ≡ accepted
    → (i : ℕ) × (name : Text) × (get_elem? layers i ≡ some name) × IsBlockedLayer md name
unfolding validate
validate-accepted md [] e = cc
validate-accepted md (n ∷ ns) e =
    let (i, at) = least-mem n ns in (i, least n ns, at, check_shapes-accepted _ _ e)

-- When the check of the block size accepts a checkpoint, a detected layer has a scale of some shape
-- [s0, s1] and a weight of shape [128 * s0, 128 * s1].
pub maybe_update_config-accepted :
    (md : Metadata)
    → (maybe_update_config md).1 ≡ accepted
    → (i : ℕ) × (name : Text) × (get_elem? (maybe_update_config md).0 i ≡ some name)
      × IsBlockedLayer md name
unfolding maybe_update_config
maybe_update_config-accepted md h = validate-accepted md (detect md md) h
