-- ===== src/Fp8Convert/Examples.antt =====
-- Tests of tools/fp8_convert.py, on tensors of one number whose last digit says their shape.
use qwen3_8_flash_dgx_auto_r.Common.{
  elem, inl, inr, Bool-cases, ==_iff, ℕ_discrete, distinct, ℕ, zero, suc, ◌+◌, arith, ◌≡◌, refl,
  true, List, [], ◌∷◌, Option, none, some, get_or, ◌==◌, if◌then◌else◌,
}
use qwen3_8_flash_dgx_auto_r.Fp8Convert.{
  load_file, Name-discrete, Name, weight, weight_scale_inv, other_name, Tensor, plain, whole,
  WeightMap, Checkpoint, run, Outcome, Quantizer, names_in, convert_tensors, begun, main, attempt,
  attempts,
}
use qwen3_8_flash_dgx_auto_r.Fp8Convert.Kept.{untouched, AreKept}
use qwen3_8_flash_dgx_auto_r.Fp8Convert.Resume.{attempts-AreKept}
use qwen3_8_flash_dgx_auto_r.Fp8Convert.Stuck.{cut_off-stuck}
use qwen3_8_flash_dgx_auto_r.Fp8Convert.Finish.{IsReady, main-IsConverted}
use qwen3_8_flash_dgx_auto_r.Fp8Convert.Conversion.{conversion}

-- Tensor 5 has 200 rows.
abbrev quantizer : Quantizer ℕ ℕ
quantizer = record {
  rows = λ w. if w == 5 then 200 else 256;
  cols = λ w. 128;
  block_quant = λ w. (w + 100, w + 200);
  is_accurate = λ w. true;
}

abbrev tensors : Name → Option (Tensor ℕ ℕ)
tensors (weight b) = some (plain b)
tensors (weight_scale_inv b) = none
tensors (other_name b) = some (plain 9)

abbrev weight_map : WeightMap
weight_map = (weight 3, 1) ∷ (other_name 0, 1) ∷ (weight 4, 0) ∷ (weight 5, 1) ∷ []

abbrev checkpoint : Checkpoint ℕ ℕ
checkpoint = record {
  slots = λ f. record { path = some (whole tensors); bak = none; tmp = none };
  index = weight_map;
  index_tmp = none;
}

abbrev names : ℕ → List ℕ
names f = names_in f weight_map

checkpoint-AreKept : AreKept quantizer names (λ f. tensors) checkpoint
unfolding names_in
checkpoint-AreKept = record { kept = λ f. untouched refl refl; targets = λ f. refl }

attempts-AreKept_example :
    AreKept quantizer names
      (λ f. tensors)
      (attempts quantizer (0 ∷ 1 ∷ []) (3 ∷ 1 ∷ 20 ∷ []) checkpoint)
attempts-AreKept_example =
    attempts-AreKept quantizer names (λ f. tensors) (0 ∷ 1 ∷ []) (3 ∷ 1 ∷ 20 ∷ []) checkpoint
      checkpoint-AreKept

-- What becomes of the shards 0 and 1; no other has a target.
abbrev outcomes : ℕ → Outcome ℕ ℕ
unfolding convert_tensors
outcomes f = get_or (convert_tensors quantizer (names f) (begun tensors)) (begun tensors)

outcomes_made : (f : ℕ) → convert_tensors quantizer (names f) (begun tensors) ≡ some (outcomes f)
unfolding outcomes convert_tensors names_in Name-discrete ℕ_discrete
outcomes_made zero = refl
outcomes_made (suc zero) = refl
outcomes_made (suc (suc f)) = ground arith

cut_off-stuck_example :
    let d' = attempt quantizer (1 ∷ []) 3 checkpoint in
    ((d'.slots 1).path ≡ none)
    × ((d'.slots 1).bak ≡ (checkpoint.slots 1).path)
    × (main quantizer (1 ∷ []) d' ≡ [])
    × (attempts quantizer (1 ∷ []) (9 ∷ 9 ∷ []) d' ≡ d')
unfolding convert_tensors names_in load_file Name-discrete ℕ_discrete
cut_off-stuck_example =
    cut_off-stuck quantizer 1 [] checkpoint tensors (outcomes 1) (9 ∷ 9 ∷ []) refl refl refl refl

-- Shard 1 is converted already, and its backup has been deleted; shard 0 is the original.
abbrev cleaned : Checkpoint ℕ ℕ
cleaned = record {
  slots = λ f. record {
    path = some (whole (if f == 1 then conversion quantizer (names 1) tensors else tensors));
    bak = none;
    tmp = none;
  };
  index = weight_map;
  index_tmp = none;
}

cleaned-IsReady :
    (g : ℕ)
    → elem ℕ_discrete g (0 ∷ 1 ∷ []) ≡ true
    → IsReady quantizer names (λ f. tensors) outcomes outcomes_made g (cleaned.slots g)
unfolding elem
cleaned-IsReady g m = elim (Bool-cases (g == 1)) [
  | inl e ↦ inr (rw (e, (==_iff g 1).0 e) refl)
  | inr e ↦ inl (rw e refl)
]

main-IsConverted_example :
    ((run cleaned (main quantizer (0 ∷ 1 ∷ []) cleaned)).slots 1).path
    ≡ some (whole (conversion quantizer (names 1) tensors))
unfolding names_in distinct ℕ_discrete elem
main-IsConverted_example =
    main-IsConverted quantizer names (λ f. tensors) outcomes outcomes_made (0 ∷ 1 ∷ []) cleaned refl
      (λ f. refl) cleaned-IsReady 1 refl refl
