-- ===== src/Fp8Convert/Convert.antt =====
-- The loop over the names of a shard in tools/fp8_convert.py, run on a shard that it has converted.
use qwen3_8_flash_dgx_auto_r.Common.{
  ℕ, ◌≡◌, refl, ap, ◌∙◌, Bool, true, false, not, List, [], ◌∷◌, Option, none, some, arith, inl, inr,
  Bool-cases, Option-cases, All, if◌then◌else◌, is_none, ◌++◌, subst, some_injective,
}
use mathlib.Core.Path.{fun_ext}
use qwen3_8_flash_dgx_auto_r.Fp8Convert.{
  Name, weight, weight_scale_inv, Tensor, plain, fp8, Tensors, Outcome, Quantizer, put, fits_blocks,
  convert_tensor, convert_tensors, begun,
}

module _ {W Q : Type 0} where
  pub put_self : (n : Name) (v : Option (Tensor W Q)) (t : Tensors W Q) → put n v t n ≡ v
  unfolding put
  put_self n v t = ground arith

  pub put_other :
      (n m : Name) (v : Option (Tensor W Q)) (t : Tensors W Q) → (m ≡ n → ⊥) → put n v t m ≡ t m
  unfolding put
  put_other n m v t h = ground arith

  put-put :
      (n : Name) (v u : Option (Tensor W Q)) (t : Tensors W Q) → t n ≡ v → put n v (put n u t) ≡ t
  unfolding put
  put-put n v u t h = fun_ext (λ m. ground (arith, ap t))

module _ {W Q : Type 0} (z : Quantizer W Q) where
  -- What the loop leaves alone.
  pub settled : Option (Tensor W Q) → Bool
  unfolding fits_blocks
  settled none = false
  settled (some (fp8 q)) = true
  settled (some (plain w)) = not (fits_blocks z w)

  convert_tensor-settles :
      (b : ℕ) (x : Tensor W Q) (o o' : Outcome W Q)
      → convert_tensor z b x o ≡ some o'
      → settled (o'.tensors (weight b)) ≡ true
  unfolding convert_tensor settled put
  convert_tensor-settles b (fp8 q) o o' h = ground arith
  convert_tensor-settles b (plain w) o o' h = ground arith

  convert_tensor-keeps :
      (b c : ℕ) (x : Tensor W Q) (o o' : Outcome W Q)
      → convert_tensor z b x o ≡ some o'
      → settled (o.tensors (weight c)) ≡ true
      → settled (o'.tensors (weight c)) ≡ true
  unfolding convert_tensor settled put
  convert_tensor-keeps b c (fp8 q) o o' h k = ground arith
  convert_tensor-keeps b c (plain w) o o' h k = ground arith

  convert_tensor_idle :
      (b : ℕ) (x : Tensor W Q) (o : Outcome W Q)
      → o.tensors (weight b) ≡ some x
      → settled (some x) ≡ true
      → (recorded : List ℕ) × (convert_tensor z b x o ≡ some (record o { recorded = recorded }))
  unfolding convert_tensor settled
  convert_tensor_idle b (fp8 q) o at h = (
    if is_none (o.tensors (weight_scale_inv b)) then o.recorded else o.recorded ++ b ∷ [],
    rw (put-put (weight b) (some (fp8 q)) none o.tensors at) refl,
  )
  convert_tensor_idle b (plain w) o at h = (
    o.recorded,
    elim (Bool-cases (fits_blocks z w)) [
      | inl e ↦ cc
      | inr e ↦ rw (e, put-put (weight b) (some (plain w)) none o.tensors at) refl
    ],
  )

  abbrev pub AllSettled : List ℕ → Tensors W Q → Type 0
  AllSettled bs t = All (λ b. settled (t (weight b)) ≡ true) bs

  -- What a successful round of the loop says.
  pub convert_tensors-cons :
      (b : ℕ) (bs : List ℕ) (o o' : Outcome W Q)
      → convert_tensors z (b ∷ bs) o ≡ some o'
      → (x : Tensor W Q) × (p : Outcome W Q) × (o.tensors (weight b) ≡ some x)
        × (convert_tensor z b x o ≡ some p)
        × (convert_tensors z bs p ≡ some o')
  unfolding convert_tensors
  convert_tensors-cons b bs o o' h = elim (Option-cases (o.tensors (weight b))) [
    | inl missing ↦ cc (rw (missing, convert_tensors) at h)
    | inr (x, at) ↦ elim (Option-cases (convert_tensor z b x o)) [
      | inl failed ↦ cc (rw (at, failed, convert_tensors) at h)
      | inr (p, made) ↦ (x, p, at, made, rw (at, made, convert_tensors) at h)
    ]
  ]

  convert_tensors-keeps :
      (bs : List ℕ) (c : ℕ) (o o' : Outcome W Q)
      → convert_tensors z bs o ≡ some o'
      → settled (o.tensors (weight c)) ≡ true
      → settled (o'.tensors (weight c)) ≡ true
  unfolding convert_tensors
  convert_tensors-keeps [] c o o' h k =
      subst (λ p. settled (p.tensors (weight c)) ≡ true) (some_injective h) k
  convert_tensors-keeps (b ∷ bs) c o o' h k =
      let (x, p, at, made, more) = convert_tensors-cons b bs o o' h in
      convert_tensors-keeps bs c p o' more (convert_tensor-keeps b c x o p made k)

  convert_tensors-AllSettled :
      (bs : List ℕ) (o o' : Outcome W Q)
      → convert_tensors z bs o ≡ some o'
      → AllSettled bs o'.tensors
  convert_tensors-AllSettled [] o o' h = tt
  convert_tensors-AllSettled (b ∷ bs) o o' h =
      let (x, p, at, made, more) = convert_tensors-cons b bs o o' h in
      (
        convert_tensors-keeps bs b p o' more (convert_tensor-settles b x o p made),
        convert_tensors-AllSettled bs p o' more,
      )

  settled-some : (v : Option (Tensor W Q)) → settled v ≡ true → (x : Tensor W Q) × (v ≡ some x)
  unfolding settled
  settled-some none h = cc
  settled-some (some x) h = (x, refl)

  convert_tensors-step :
      (b : ℕ) (bs : List ℕ) (o o' : Outcome W Q) (x : Tensor W Q) (p : Outcome W Q)
      → o.tensors (weight b) ≡ some x
      → convert_tensor z b x o ≡ some p
      → convert_tensors z bs p ≡ some o'
      → convert_tensors z (b ∷ bs) o ≡ some o'
  unfolding convert_tensors
  convert_tensors-step b bs o o' x p at made more = rw (at, made, convert_tensors) more

  convert_tensors_idle :
      (bs : List ℕ) (o : Outcome W Q)
      → AllSettled bs o.tensors
      → (recorded : List ℕ) × (convert_tensors z bs o ≡ some (record o { recorded = recorded }))
  unfolding convert_tensors
  convert_tensors_idle [] o h = (o.recorded, refl)
  convert_tensors_idle (b ∷ bs) o h =
      let (x, at) = settled-some (o.tensors (weight b)) h.0 in
      let (r, made) = convert_tensor_idle b x o at (subst (λ v. settled v ≡ true) at h.0) in
      let p : Outcome W Q = record o { recorded = r } in
      let (r', done) = convert_tensors_idle bs p h.1 in
      (r', convert_tensors-step b bs o (record o { recorded = r' }) x p at made done)

  -- A converted shard is left as it is, by every later run.
  pub convert_tensors_again :
      (bs : List ℕ) (t : Tensors W Q) (o : Outcome W Q)
      → convert_tensors z bs (begun t) ≡ some o
      → (recorded : List ℕ) × (convert_tensors z bs (begun o.tensors)
          ≡ some (record { tensors = o.tensors; recorded = recorded; changed = false }))
  convert_tensors_again bs t o h =
      convert_tensors_idle bs (begun o.tensors) (convert_tensors-AllSettled bs (begun t) o h)

  convert_tensor_unchanged :
      (b : ℕ) (x : Tensor W Q) (o o' : Outcome W Q)
      → o.tensors (weight b) ≡ some x
      → convert_tensor z b x o ≡ some o'
      → o'.changed ≡ false
      → (o.changed ≡ false) × (o'.tensors ≡ o.tensors)
  unfolding convert_tensor
  convert_tensor_unchanged b (fp8 q) o o' at made c =
      ground (arith, put-put (weight b) (some (fp8 q)) none o.tensors)
  convert_tensor_unchanged b (plain w) o o' at made c =
      ground (arith, put-put (weight b) (some (plain w)) none o.tensors)

  -- Where nothing has changed, the tensors are those that were loaded.
  pub convert_tensors_unchanged :
      (bs : List ℕ) (o o' : Outcome W Q)
      → convert_tensors z bs o ≡ some o'
      → o'.changed ≡ false
      → (o.changed ≡ false) × (o'.tensors ≡ o.tensors)
  unfolding convert_tensors
  convert_tensors_unchanged [] o o' made c = ground arith
  convert_tensors_unchanged (b ∷ bs) o o' made c =
      let (x, p, at, one, more) = convert_tensors-cons b bs o o' made in
      let (c', same) = convert_tensors_unchanged bs p o' more c in
      let (c'', same') = convert_tensor_unchanged b x o p at one c' in (c'', same ∙ same')
