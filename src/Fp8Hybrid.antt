-- ===== src/Fp8Hybrid.antt =====
-- src/vllm_fp8_hybrid.py: which layers of a checkpoint stay blockwise FP8, the check of their block
-- size, and the dispatch of a layer. A text is its code points. The metadata of the checkpoint, the
-- mapper, `orig_gqm` and Fp8Config are vLLM's: the first is data here, the others are parameters.
mod Paths
mod Layers
mod Blocks
mod Examples
use Prim.Native.Char.{code}
use Prim.Native.String.{String}
use qwen3_8_flash_dgx_auto_r.Common.{
  ℕ, ◌+◌, ◌-◌, ◌/◌, ◌%◌, Bool, true, false, not, ◌&&◌, ◌||◌, List, [], ◌∷◌, ◌++◌, map, Option, none,
  some, ltb, ◌==◌, if◌then◌else◌, length, take, drop, is_empty, is_none, get_or,
}

abbrev pub Text : Type 0
Text = List ℕ

abbrev pub codes : String → Text
codes String.[] = []
codes (String.◌∷◌ c s) = code c ∷ codes s

pub text_eq : Text → Text → Bool
text_eq [] [] = true
text_eq [] (d ∷ ds) = false
text_eq (c ∷ cs) [] = false
text_eq (c ∷ cs) (d ∷ ds) = c == d && text_eq cs ds

-- `name.startswith(start)`
pub starts_with : Text → Text → Bool
starts_with name [] = true
starts_with [] (d ∷ ds) = false
starts_with (c ∷ cs) (d ∷ ds) = c == d && starts_with cs ds

-- `name[:-len(suffix)]` and `name.endswith(suffix)`.
pub without : Text → Text → Text
without suffix name = take (length name - length suffix) name

pub ends_with : Text → Text → Bool
unfolding text_eq
ends_with suffix name = text_eq (drop (length name - length suffix) name) suffix

-- `a < b`, by which `sorted` goes.
pub text_lt : Text → Text → Bool
text_lt cs [] = false
text_lt [] (d ∷ ds) = true
text_lt (c ∷ cs) (d ∷ ds) = ltb c d || (c == d && text_lt cs ds)

-- What the metadata says of a tensor: the empty shape stands for none.
pub record Info : Type 0 where
  pub dtype : Text
  pub shape : List ℕ

abbrev pub Metadata : Type 0
Metadata = List (Text × Info)

pub get : {A : Type 0} → Text → List (Text × A) → Option A
unfolding text_eq
get name [] = none
get name ((n, i) ∷ md) = let rest = get name md in if text_eq n name then some i else rest

abbrev pub dot_weight : Text
dot_weight = codes ".weight"

abbrev pub dot_weight_scale_inv : Text
dot_weight_scale_inv = codes ".weight_scale_inv"

-- The test of the set comprehension.
pub is_fp8_weight : Metadata → Text → Info → Bool
unfolding ends_with text_eq get without
is_fp8_weight md name info =
    ends_with dot_weight name
    && text_eq info.dtype (codes "F8_E4M3")
    && not (is_none (get (without dot_weight name ++ dot_weight_scale_inv) md))

-- `self.fp8_layers`
pub detect : Metadata → Metadata → List Text
unfolding is_fp8_weight without
detect md [] = []
detect md ((name, info) ∷ rest) =
    let more = detect md rest in
    if is_fp8_weight md name info then without dot_weight name ∷ more else more

-- The first name of `sorted(self.fp8_layers)`; the loop of the check never goes past it.
pub least : Text → List Text → Text
unfolding text_lt
least name [] = name
least name (n ∷ ns) = least (if text_lt n name then n else name) ns

pub data Validation : Type 0 where
  skipped accepted wrong_block not_a_matrix division_by_zero : Validation

-- The test of the block; the message of the error divides by both sizes too.
pub check_block : ℕ → ℕ → ℕ → ℕ → Validation
check_block out_f in_f s0 s1 =
    if s0 == 0 || s1 == 0
    then division_by_zero
    else if not (out_f % s0 == 0)
        || not (in_f % s1 == 0)
        || not (out_f / s0 == 128 && in_f / s1 == 128)
    then wrong_block
    else accepted

-- The shapes of one layer; unpacking a weight that is not two-dimensional raises ValueError.
pub check_shapes : List ℕ → List ℕ → Validation
unfolding check_block
check_shapes [] s_shape = skipped
check_shapes (w ∷ ws) [] = skipped
check_shapes (w ∷ ws) (s0 ∷ []) = skipped
check_shapes (w ∷ ws) (s0 ∷ s1 ∷ s2 ∷ ss) = skipped
check_shapes (w ∷ []) (s0 ∷ s1 ∷ []) = not_a_matrix
check_shapes (out_f ∷ in_f ∷ []) (s0 ∷ s1 ∷ []) = check_block out_f in_f s0 s1
check_shapes (out_f ∷ in_f ∷ w ∷ ws) (s0 ∷ s1 ∷ []) = not_a_matrix

-- `(md.get(name) or {}).get("shape")`
pub shape_of : Option Info → List ℕ
shape_of none = []
shape_of (some info) = info.shape

-- _validate_fp8_block_size
pub validate : Metadata → List Text → Validation
unfolding check_shapes shape_of get least
validate md [] = skipped
validate md (name ∷ names) =
    let first = least name names in
    check_shapes (shape_of (get (first ++ dot_weight) md))
      (shape_of (get (first ++ dot_weight_scale_inv) md))

-- maybe_update_config, after `orig_update`: the layers, and how the check ended.
pub maybe_update_config : Metadata → List Text × Validation
unfolding detect validate
maybe_update_config md = let layers = detect md md in (layers, validate md layers)

-- apply_vllm_mapper, with `apply_list` as a parameter.
pub apply_vllm_mapper : (List Text → List Text) → List Text → List Text
apply_vllm_mapper apply_list layers = if is_empty layers then layers else apply_list layers

pub has_dot : Text → Bool
has_dot [] = false
has_dot (c ∷ cs) = c == b'.' || has_dot cs

-- `head, _, proj = prefix.rpartition(".")`
pub rpartition : Text → Text × Text
unfolding has_dot
rpartition [] = ([], [])
rpartition (c ∷ cs) =
    let (head, proj) = rpartition cs in
    if has_dot cs then (c ∷ head, proj) else if c == b'.' then ([], cs) else ([], c ∷ cs)

-- _matches
pub matches : Text → Text → Bool
unfolding text_eq starts_with
matches layer_name name = text_eq layer_name name || starts_with name (layer_name ++ b'.' ∷ [])

pub any_matches : List Text → Text → Bool
unfolding matches
any_matches [] name = false
any_matches (l ∷ layers) name = matches l name || any_matches layers name

pub all_match : List Text → List Text → Bool
unfolding any_matches
all_match layers [] = true
all_match layers (n ∷ names) = any_matches layers n && all_match layers names

-- `names`
pub fused_names : Text → Text → Text → Option (List Text) → List Text
fused_names prefix head proj none = prefix ∷ []
fused_names prefix head proj (some fused) =
    if is_empty fused || is_empty head then prefix ∷ [] else map (λ p. head ++ b'.' ∷ p) fused

-- _is_fp8_layer
pub is_fp8_layer : List Text → List (Text × List Text) → Text → Bool
unfolding rpartition get fused_names all_match
is_fp8_layer layers packed prefix =
    let (head, proj) = rpartition prefix in
    if is_empty layers
    then false
    else all_match layers (fused_names prefix head proj (get proj packed))

-- get_quant_method: the method, and `_fp8_cfg` after it.
pub get_quant_method :
    {Config Method : Type 0}
    → Config
    → (Config → Text → Method)
    → (Text → Method)
    → List Text
    → List (Text × List Text)
    → Bool
    → Text
    → Option Config
    → Method × Option Config
unfolding is_fp8_layer
get_quant_method new_config fp8_method orig_gqm layers packed is_linear prefix fp8_cfg =
    let cfg = get_or fp8_cfg new_config in
    if is_linear && is_fp8_layer layers packed prefix
    then (fp8_method cfg prefix, some cfg)
    else (orig_gqm prefix, fp8_cfg)
