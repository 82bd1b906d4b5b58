-- ===== src/Fp8Hybrid/Layers.antt =====
-- Which layers src/vllm_fp8_hybrid.py dispatches to FP8, by their place in the tree of modules.
use qwen3_8_flash_dgx_auto_r.Common.{
  ℕ, zero, suc, ◌≡◌, refl, sym, ap, ◌∙◌, subst, ◌↔◌, inl, inr, Bool-cases, true, false, List, [],
  ◌∷◌, ◌++◌, map, is_empty, arith, Option, some, none, get_elem?, All,
}
use qwen3_8_flash_dgx_auto_r.Fp8Hybrid.{
  Text, has_dot, rpartition, matches, any_matches, all_match, fused_names, get, is_fp8_layer,
}
use qwen3_8_flash_dgx_auto_r.Fp8Hybrid.Paths.{
  components, components-append, components_undotted, IsUnder, matches_to, matches_of,
}

has_dot-append : (head proj : Text) → has_dot (head ++ b'.' ∷ proj) ≡ true
unfolding has_dot
has_dot-append [] proj = refl
has_dot-append (c ∷ cs) proj = ground (arith, has_dot-append cs proj)

rpartition_lem :
    (head proj : Text) → has_dot proj ≡ false → rpartition (head ++ b'.' ∷ proj) ≡ (head, proj)
unfolding rpartition has_dot
rpartition_lem [] proj h = rw h
rpartition_lem (c ∷ cs) proj h = rw (has_dot-append cs proj, rpartition_lem cs proj h) refl

-- Some FP8 layer stands at the path or above it.
abbrev pub IsCovered : List Text → List Text → Type 0
IsCovered layers path =
    (i : ℕ) × (l : Text) × (get_elem? layers i ≡ some l) × IsUnder path (components l)

any_matches_to :
    (layers : List Text) (n : Text) → any_matches layers n ≡ true → IsCovered layers (components n)
unfolding any_matches
any_matches_to [] n h = cc
any_matches_to (l ∷ layers) n h = elim (Bool-cases (matches l n)) [
  | inl e ↦ (0, l, refl, matches_to l n e)
  | inr e ↦ let (i, k, at, u) = any_matches_to layers n (ground arith) in (suc i, k, at, u)
]

any_matches_of :
    (layers : List Text) (n : Text) (i : ℕ) (l : Text)
    → get_elem? layers i ≡ some l
    → matches l n ≡ true
    → any_matches layers n ≡ true
unfolding any_matches
any_matches_of [] n i l at m = cc
any_matches_of (k ∷ layers) n zero l at m = ground arith
any_matches_of (k ∷ layers) n (suc i) l at m = ground (arith, any_matches_of layers n i l at m)

pub AllCovered : List Text → List (List Text) → Type 0
AllCovered layers paths = All (IsCovered layers) paths

all_match_to :
    (layers names : List Text)
    → all_match layers names ≡ true
    → AllCovered layers (map components names)
unfolding all_match AllCovered
all_match_to layers [] h = tt
all_match_to layers (n ∷ names) h =
    (any_matches_to layers n (ground arith), all_match_to layers names (ground arith))

all_match_of :
    (layers names : List Text)
    → AllCovered layers (map components names)
    → all_match layers names ≡ true
unfolding all_match AllCovered
all_match_of layers [] c = refl
all_match_of layers (n ∷ names) c =
    let (i, l, at, u) = c.0 in
    ground (
      arith,
      any_matches_of layers n i l at (matches_of l n u.0 u.1),
      all_match_of layers names c.1,
    )

-- The paths that a module stands for: those of the projections that it fuses, or its own.
pub targets : List Text → Text → Option (List Text) → List (List Text)
targets above proj none = (above ++ proj ∷ []) ∷ []
targets above proj (some []) = (above ++ proj ∷ []) ∷ []
targets above proj (some (p ∷ ps)) = map (λ q. above ++ components q) (p ∷ ps)

map-components :
    (head : Text) (ps : List Text)
    → map components (map (λ p. head ++ b'.' ∷ p) ps)
      ≡ map (λ q. components head ++ components q) ps
map-components head [] = refl
map-components head (p ∷ ps) = cc (components-append head p, map-components head ps)

components-fused_names :
    (head proj : Text) (fused : Option (List Text))
    → is_empty head ≡ false
    → has_dot proj ≡ false
    → map components (fused_names (head ++ b'.' ∷ proj) head proj fused)
      ≡ targets (components head) proj fused
unfolding fused_names targets
components-fused_names head proj none h u =
    ap (λ p. p ∷ [])
      (components-append head proj ∙ ap (λ r. components head ++ r) (components_undotted proj u))
components-fused_names head proj (some []) h u =
    ap (λ p. p ∷ [])
      (components-append head proj ∙ ap (λ r. components head ++ r) (components_undotted proj u))
components-fused_names head proj (some (p ∷ ps)) h u = rw h (map-components head (p ∷ ps))

targets-is_empty :
    (above : List Text) (proj : Text) (fused : Option (List Text))
    → is_empty (targets above proj fused) ≡ false
unfolding targets
targets-is_empty above proj none = refl
targets-is_empty above proj (some []) = refl
targets-is_empty above proj (some (p ∷ ps)) = refl

no_layers : (paths : List (List Text)) → is_empty paths ≡ false → AllCovered [] paths → ⊥
unfolding AllCovered
no_layers [] h c = cc
no_layers (p ∷ ps) h c = cc (c.0.2)

-- A module whose name is a path that is not empty, a dot, and a last component, is dispatched to FP8
-- exactly when an FP8 layer stands at or above each module that it stands for, in the tree of modules:
-- each projection that it fuses, or itself when it fuses none.
pub is_fp8_layer_iff :
    (layers : List Text) (packed : List (Text × List Text)) (head proj : Text)
    → is_empty head ≡ false
    → has_dot proj ≡ false
    → (is_fp8_layer layers packed (head ++ b'.' ∷ proj) ≡ true)
      ↔ AllCovered layers (targets (components head) proj (get proj packed))
unfolding is_fp8_layer
is_fp8_layer_iff [] packed head proj h u = (
  λ e. cc,
  λ c. absurd (no_layers _ (targets-is_empty (components head) proj (get proj packed)) c),
)
is_fp8_layer_iff (l ∷ layers) packed head proj h u =
    let e = components-fused_names head proj (get proj packed) h u in
    rw (rpartition_lem head proj u) (
      λ m. subst (AllCovered (l ∷ layers)) e (all_match_to (l ∷ layers) _ m),
      λ c. all_match_of (l ∷ layers) _ (subst (AllCovered (l ∷ layers)) (sym e) c),
    )
