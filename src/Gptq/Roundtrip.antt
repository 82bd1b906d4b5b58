-- ===== src/Gptq/Roundtrip.antt =====
-- What packing does not lose: `dequant` reads back the values that `quantize` has packed.
use qwen3_8_flash_dgx_auto_r.Common.{
  ℕ, zero, suc, ◌+◌, ◌*◌, ◌/◌, ◌%◌, ◌^◌, ◌≤◌, ◌<◌, ◌≡◌, refl, sym, ap, subst, ◌∙◌, List, [], ◌∷◌,
  take, drop, length, All, arith, length-take, length-drop, take-append-drop,
}
use native.Mathlib.Nat.{
  pow-zero, pow-suc, one-le-pow, pow-le-pow_right, mul-lt-mul_of_pos_left, mul-le-mul_left,
  mod-eq_of_lt, add-mul-div_left, add-mul-mod_self_left, div-div-eq-div-mul, div-eq_of_lt,
  mul_assoc, mul_comm, mul-add, mul-suc, suc-mul, add-zero, add-suc, mul-one, zero-mul, mul-zero,
  zero-add, div-one, one-mul,
}
use qwen3_8_flash_dgx_auto_r.Gptq.{
  shift_left, pack_word, nibble, unpack_from, pack_column, unpack_column,
}

nil_of_length : (qs : List ℕ) → length qs ≡ 0 → qs ≡ []
nil_of_length [] h = refl
nil_of_length (q ∷ qs) h = absurd (omega arith)

pow-add : (a b : ℕ) → 2 ^ (a + b) ≡ 2 ^ a * 2 ^ b
pow-add a zero = rw (add-zero, pow-zero, mul-one) refl
pow-add a (suc b) =
    rw (add-suc a b, pow-suc 2 (a + b), pow-suc 2 b, pow-add a b) (mul_assoc (2 ^ a) (2 ^ b) 2)

pow_is_pos : (n : ℕ) → 0 < 2 ^ n
pow_is_pos n = omega (arith, one-le-pow n 2 (omega arith))

module _ (bits : ℕ) where
  -- The values as the digits of one number.
  abbrev value : List ℕ → ℕ
  value [] = 0
  value (q ∷ qs) = q + 2 ^ bits * value qs

  abbrev Fit : List ℕ → Type 0
  Fit = All (λ q. q < 2 ^ bits)

  value_lt : (qs : List ℕ) → Fit qs → value qs < 2 ^ (bits * length qs)
  value_lt [] fit = pow_is_pos (bits * 0)
  value_lt (q ∷ qs) (small, fit) =
      let top : 2 ^ bits * (value qs + 1) ≤ 2 ^ bits * 2 ^ (bits * length qs) =
        mul-le-mul_left (2 ^ bits) (omega (arith, value_lt qs fit)) in
      let size : 2 ^ (bits * suc (length qs)) ≡ 2 ^ (bits * length qs) * 2 ^ bits =
        ap (λ n. 2 ^ n) (mul-suc bits (length qs)) ∙ pow-add (bits * length qs) bits in
      omega (
        arith,
        small,
        top,
        size,
        mul-add (2 ^ bits) (value qs) 1,
        mul_comm (2 ^ bits) (2 ^ (bits * length qs)),
      )

  -- A value that starts at `shift` and ends below bit 32.
  shifted_lt :
      (shift : ℕ) (qs : List ℕ)
      → Fit qs
      → shift + bits * length qs ≤ 32
      → 2 ^ shift * value qs < 2 ^ 32
  shifted_lt shift qs fit room =
      let below : 2 ^ shift * value qs < 2 ^ shift * 2 ^ (bits * length qs) =
        mul-lt-mul_of_pos_left (value_lt qs fit) (pow_is_pos shift) in
      let top : 2 ^ (shift + bits * length qs) ≤ 2 ^ 32 = pow-le-pow_right (omega arith) room in
      omega (arith, below, top, pow-add shift (bits * length qs))

  pack_word-value :
      (shift : ℕ) (qs : List ℕ)
      → Fit qs
      → shift + bits * length qs ≤ 32
      → pack_word bits shift qs ≡ 2 ^ shift * value qs
  unfolding pack_word shift_left
  pack_word-value shift [] fit room = sym (mul-zero (2 ^ shift))
  pack_word-value shift (q ∷ qs) (small, fit) room =
      let whole : 2 ^ shift * (q + 2 ^ bits * value qs) < 2 ^ 32 =
        shifted_lt shift (q ∷ qs) (small, fit) room in
      let parts : 2 ^ shift * (q + 2 ^ bits * value qs)
          ≡ 2 ^ shift * q + 2 ^ shift * (2 ^ bits * value qs) =
        mul-add (2 ^ shift) q (2 ^ bits * value qs) in
      let head : shift_left q shift ≡ 2 ^ shift * q =
        mod-eq_of_lt (omega (arith, whole, parts, mul_comm q (2 ^ shift)))
        ∙ mul_comm q (2 ^ shift) in
      let rest : pack_word bits (shift + bits) qs ≡ 2 ^ shift * (2 ^ bits * value qs) =
        pack_word-value (shift + bits) qs fit (omega (arith, room, mul-suc bits (length qs)))
        ∙ ap (λ n. n * value qs) (pow-add shift bits)
        ∙ mul_assoc (2 ^ shift) (2 ^ bits) (value qs) in
      let sum : shift_left q shift + pack_word bits (shift + bits) qs
          ≡ 2 ^ shift * (q + 2 ^ bits * value qs) =
        omega (arith, head, rest, parts) in
      ap (λ n. n % 2 ^ 32) sum ∙ mod-eq_of_lt whole

  unpack_from-value :
      (word i : ℕ) (qs : List ℕ)
      → Fit qs
      → word / 2 ^ (i * bits) ≡ value qs
      → unpack_from bits word i (length qs) ≡ qs
  unfolding unpack_from nibble
  unpack_from-value word i [] fit e = refl
  unpack_from-value word i (q ∷ qs) (small, fit) e =
      let digit : word / 2 ^ (i * bits) % 2 ^ bits ≡ q =
        ap (λ n. n % 2 ^ bits) e
        ∙ add-mul-mod_self_left q (2 ^ bits) (value qs)
        ∙ mod-eq_of_lt small in
      let above : word / 2 ^ ((i + 1) * bits) ≡ value qs =
        ap (λ n. word / n) (ap (λ n. 2 ^ n) (omega arith) ∙ pow-add (i * bits) bits)
        ∙ sym (div-div-eq-div-mul word (2 ^ (i * bits)) (2 ^ bits))
        ∙ ap (λ n. n / 2 ^ bits) e
        ∙ add-mul-div_left q (value qs) (pow_is_pos bits)
        ∙ ap (λ n. n + value qs) (div-eq_of_lt small)
        ∙ zero-add (value qs) in
      rw (digit, unpack_from-value word (i + 1) qs fit above) refl

  unpack-pack_word :
      (qs : List ℕ)
      → Fit qs
      → bits * length qs ≤ 32
      → unpack_from bits (pack_word bits 0 qs) 0 (length qs) ≡ qs
  unpack-pack_word qs fit room =
      let word = pack_word bits 0 qs in
      unpack_from-value word 0 qs fit (
        ap (λ n. word / 2 ^ n) (zero-mul bits)
        ∙ div-one word
        ∙ pack_word-value 0 qs fit (omega (arith, room))
        ∙ one-mul (value qs))

  Fit-take : (n : ℕ) (qs : List ℕ) → Fit qs → Fit (take n qs)
  Fit-take zero qs fit = tt
  Fit-take (suc n) [] fit = tt
  Fit-take (suc n) (q ∷ qs) (small, fit) = (small, Fit-take n qs fit)

  Fit-drop : (n : ℕ) (qs : List ℕ) → Fit qs → Fit (drop n qs)
  Fit-drop zero qs fit = fit
  Fit-drop (suc n) [] fit = tt
  Fit-drop (suc n) (q ∷ qs) (small, fit) = Fit-drop n qs fit

  -- When the fields of a word fit 32 bits, the column has a whole number of words, and each value
  -- fits its field, unpacking a packed column gives the column back.
  pub unpack_column-pack_column :
      (pack words : ℕ) (qs : List ℕ)
      → bits * pack ≤ 32
      → length qs ≡ words * pack
      → All (λ q. q < 2 ^ bits) qs
      → unpack_column bits pack (pack_column bits pack words qs) ≡ qs
  unfolding pack_column unpack_column
  unpack_column-pack_column pack zero qs room size fit =
      sym (nil_of_length qs (size ∙ zero-mul pack))
  unpack_column-pack_column pack (suc words) qs room size fit =
      let first : length (take pack qs) ≡ pack =
        length-take pack qs ∙ omega (arith, size, suc-mul words pack) in
      let others : length (drop pack qs) ≡ words * pack =
        length-drop pack qs ∙ omega (arith, size, suc-mul words pack) in
      let word : unpack_from bits (pack_word bits 0 (take pack qs)) 0 pack ≡ take pack qs =
        ap (unpack_from bits (pack_word bits 0 (take pack qs)) 0) (sym first)
        ∙ unpack-pack_word (take pack qs) (Fit-take pack qs fit)
            (subst (λ n. bits * n ≤ 32) (sym first) room) in
      rw
        (
          word,
          unpack_column-pack_column pack words (drop pack qs) room others (Fit-drop pack qs fit),
        )
        (take-append-drop pack qs)
