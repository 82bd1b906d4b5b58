-- ===== src/Fp8Convert/Conversion.antt =====
-- What the shard of a file holds after tools/fp8_convert.py, said name by name.
use qwen3_8_flash_dgx_auto_r.Common.{
  ℕ, ◌%◌, ◌≡◌, sym, ap, ◌∙◌, Bool, ◌&&◌, List, [], ◌∷◌, Option, none, some, ◌==◌, if◌then◌else◌,
  has, arith, some_injective,
}
use mathlib.Core.Path.{}
use qwen3_8_flash_dgx_auto_r.Fp8Convert.{
  Name, weight, weight_scale_inv, other_name, Tensor, plain, fp8, Tensors, Outcome, Quantizer, put,
  fits_blocks, convert_tensor, convert_tensors,
}
use qwen3_8_flash_dgx_auto_r.Fp8Convert.Convert.{convert_tensors-cons}

module _ {W Q : Type 0} (z : Quantizer W Q) where
  -- Both sides are multiples of the block.
  abbrev pub is_blocked : W → Bool
  is_blocked w = z.rows w % 128 == 0 && z.cols w % 128 == 0

  -- A target: its quantised tensor, where it is plain and blocked.
  abbrev pub quantised : Option (Tensor W Q) → Option (Tensor W Q)
  quantised none = none
  quantised (some (fp8 q)) = some (fp8 q)
  quantised (some (plain w)) =
      if is_blocked w then some (fp8 (z.block_quant w).0) else some (plain w)

  -- Beside a target: its scale, where the target is plain and blocked, or what was there.
  abbrev pub scale_of : Option (Tensor W Q) → Option (Tensor W Q) → Option (Tensor W Q)
  scale_of none s = s
  scale_of (some (fp8 q)) s = s
  scale_of (some (plain w)) s = if is_blocked w then some (plain (z.block_quant w).1) else s

  -- The conversion of a shard with these targets: any other tensor is as it was.
  abbrev pub conversion : List ℕ → Tensors W Q → Tensors W Q
  conversion targets t (weight b) = if has b targets then quantised (t (weight b)) else t (weight b)
  conversion targets t (weight_scale_inv b) =
      if has b targets
      then scale_of (t (weight b)) (t (weight_scale_inv b))
      else t (weight_scale_inv b)
  conversion targets t (other_name n) = t (other_name n)

  -- One target, with any that are to come.
  convert_tensor-conversion :
      (b : ℕ) (bs : List ℕ) (x : Tensor W Q) (o p : Outcome W Q)
      → o.tensors (weight b) ≡ some x
      → convert_tensor z b x o ≡ some p
      → (n : Name) → conversion bs p.tensors n ≡ conversion (b ∷ bs) o.tensors n
  unfolding convert_tensor put fits_blocks
  convert_tensor-conversion b bs (fp8 q) o p at made (weight c) = ground arith
  convert_tensor-conversion b bs (fp8 q) o p at made (weight_scale_inv c) = ground arith
  convert_tensor-conversion b bs (fp8 q) o p at made (other_name c) = ground arith
  convert_tensor-conversion b bs (plain w) o p at made (weight c) = ground arith
  convert_tensor-conversion b bs (plain w) o p at made (weight_scale_inv c) = ground arith
  convert_tensor-conversion b bs (plain w) o p at made (other_name c) = ground arith

  pub convert_tensors-conversion :
      (bs : List ℕ) (o o' : Outcome W Q)
      → convert_tensors z bs o ≡ some o'
      → (n : Name) → o'.tensors n ≡ conversion bs o.tensors n
  unfolding convert_tensors
  convert_tensors-conversion [] o o' h (weight c) =
      ap (λ (p : Outcome W Q). p.tensors (weight c)) (sym (some_injective h))
  convert_tensors-conversion [] o o' h (weight_scale_inv c) =
      ap (λ (p : Outcome W Q). p.tensors (weight_scale_inv c)) (sym (some_injective h))
  convert_tensors-conversion [] o o' h (other_name c) =
      ap (λ (p : Outcome W Q). p.tensors (other_name c)) (sym (some_injective h))
  convert_tensors-conversion (b ∷ bs) o o' h n =
      let (x, p, at, made, more) = convert_tensors-cons z b bs o o' h in
      convert_tensors-conversion bs p o' more n ∙ convert_tensor-conversion b bs x o p at made n
