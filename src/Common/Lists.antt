-- ===== src/Common/Lists.antt =====
-- Lists measured and indexed by native numbers.
use Prim.Native.Nat.{ℕ, zero, suc, ◌+◌, ◌-◌, ◌<◌, min, compare, Ordering}
use mathlib.Core.Path.{◌≡◌, refl, sym, ap, ◌∙◌, subst}
use mathlib.Core.List.{List, [], ◌∷◌, ◌++◌, map}
use qwen3_8_flash_dgx_auto_r.Common.Tests.{some_injective, ◌==◌}
use mathlib.Core.Bool.{Bool, true, false, ◌||◌}
use mathlib.Core.Option.{Option, none, some}
use native.Mathlib.Nat.{zero-add, suc-add}
use native.Mathlib.Omega.{arith}

module _ {ℓ} {A : Type ℓ} where
  abbrev pub length : List A → ℕ
  length [] = 0
  length (x ∷ xs) = suc (length xs)

  -- `not l`
  abbrev pub is_empty : List A → Bool
  is_empty [] = true
  is_empty (x ∷ xs) = false

  abbrev pub get_elem? : List A → ℕ → Option A
  get_elem? [] i = none
  get_elem? (x ∷ xs) zero = some x
  get_elem? (x ∷ xs) (suc i) = get_elem? xs i

  abbrev pub take : ℕ → List A → List A
  take zero xs = []
  take (suc n) [] = []
  take (suc n) (x ∷ xs) = x ∷ take n xs

  abbrev pub drop : ℕ → List A → List A
  drop zero xs = xs
  drop (suc n) [] = []
  drop (suc n) (x ∷ xs) = drop n xs

  abbrev pub replicate : ℕ → A → List A
  replicate zero a = []
  replicate (suc n) a = a ∷ replicate n a

  pub length-append : (xs ys : List A) → length (xs ++ ys) ≡ length xs + length ys
  length-append [] ys = omega arith
  length-append (x ∷ xs) ys = omega (arith, length-append xs ys)

  pub length-take : (n : ℕ) (xs : List A) → length (take n xs) ≡ min n (length xs)
  length-take zero xs = omega arith
  length-take (suc n) [] = omega arith
  length-take (suc n) (x ∷ xs) = omega (arith, length-take n xs)

  pub length-drop : (n : ℕ) (xs : List A) → length (drop n xs) ≡ length xs - n
  length-drop zero xs = omega arith
  length-drop (suc n) [] = omega arith
  length-drop (suc n) (x ∷ xs) = omega (arith, length-drop n xs)

  pub length-replicate : (n : ℕ) (a : A) → length (replicate n a) ≡ n
  length-replicate zero a = refl
  length-replicate (suc n) a = ap suc (length-replicate n a)

  pub take-append-drop : (n : ℕ) (xs : List A) → take n xs ++ drop n xs ≡ xs
  take-append-drop zero xs = refl
  take-append-drop (suc n) [] = refl
  take-append-drop (suc n) (x ∷ xs) = ap (◌∷◌ x) (take-append-drop n xs)

  pub take_all : (xs : List A) → take (length xs) xs ≡ xs
  take_all [] = refl
  take_all (x ∷ xs) = ap (◌∷◌ x) (take_all xs)

  pub drop_all : (xs : List A) → drop (length xs) xs ≡ []
  drop_all [] = refl
  drop_all (x ∷ xs) = drop_all xs

  pub drop_nil : (n : ℕ) → drop n [] ≡ []
  drop_nil zero = refl
  drop_nil (suc n) = refl

  pub drop-add : (i j : ℕ) (xs : List A) → drop (i + j) xs ≡ drop j (drop i xs)
  drop-add zero j xs = rw zero-add
  drop-add (suc i) j [] = drop_nil (suc i + j) ∙ sym (drop_nil j)
  drop-add (suc i) j (x ∷ xs) = rw suc-add (drop-add i j xs)

  pub append-take-drop : (n : ℕ) (xs : List A) → xs ≡ take n xs ++ drop n xs
  append-take-drop n xs = sym (take-append-drop n xs)

  pub take-length-append : (xs ys : List A) → take (length xs) (xs ++ ys) ≡ xs
  take-length-append [] ys = refl
  take-length-append (x ∷ xs) ys = ap (◌∷◌ x) (take-length-append xs ys)

  pub get_elem?-take :
      (n i : ℕ) (xs : List A)
      → get_elem? (take n xs) i ≡ elim (compare i n) [ Ordering.lt ↦ get_elem? xs i | _ ↦ none ]
  get_elem?-take zero i xs = ground arith
  get_elem?-take (suc n) i [] = ground arith
  get_elem?-take (suc n) zero (x ∷ xs) = ground arith
  get_elem?-take (suc n) (suc i) (x ∷ xs) = ground (arith, get_elem?-take n i xs)

  pub get_elem?-drop : (n i : ℕ) (xs : List A) → get_elem? (drop n xs) i ≡ get_elem? xs (n + i)
  get_elem?-drop zero i xs = rw zero-add
  get_elem?-drop (suc n) i [] = refl
  get_elem?-drop (suc n) i (x ∷ xs) = rw suc-add (get_elem?-drop n i xs)

  pub get_elem?-some : (xs : List A) (i : ℕ) → i < length xs → (a : A) × (get_elem? xs i ≡ some a)
  get_elem?-some [] i h = absurd (omega arith)
  get_elem?-some (x ∷ xs) zero h = (x, refl)
  get_elem?-some (x ∷ xs) (suc i) h = get_elem?-some xs i (omega arith)

  pub get_elem?-lt : (xs : List A) (i : ℕ) {a : A} → get_elem? xs i ≡ some a → i < length xs
  get_elem?-lt [] i h = cc
  get_elem?-lt (x ∷ xs) zero h = omega arith
  get_elem?-lt (x ∷ xs) (suc i) h = omega (arith, get_elem?-lt xs i h)

  -- A predicate on every element.
  abbrev pub All {κ} : (A → Type κ) → List A → Type κ
  All P [] = Unit
  All P (x ∷ xs) = P x × All P xs

  pub get_elem?-All {κ} :
      (P : A → Type κ) (xs : List A) (i : ℕ) {a : A} → All P xs → get_elem? xs i ≡ some a → P a
  get_elem?-All P [] i h e = cc
  get_elem?-All P (x ∷ xs) zero (h, hs) e = subst P (some_injective e) h
  get_elem?-All P (x ∷ xs) (suc i) (h, hs) e = get_elem?-All P xs i hs e

module _ {ℓ κ} {A : Type ℓ} {B : Type κ} where
  pub length-map : (f : A → B) (xs : List A) → length (map f xs) ≡ length xs
  length-map f [] = refl
  length-map f (x ∷ xs) = ap suc (length-map f xs)

  pub get_elem?-map :
      (f : A → B) (xs : List A) (i : ℕ) {a : A}
      → get_elem? xs i ≡ some a
      → get_elem? (map f xs) i ≡ some (f a)
  get_elem?-map f [] i h = cc
  get_elem?-map f (x ∷ xs) zero h = cc
  get_elem?-map f (x ∷ xs) (suc i) h = get_elem?-map f xs i h

  pub get_elem?-of_map :
      (f : A → B) (xs : List A) (i : ℕ) {b : B}
      → get_elem? (map f xs) i ≡ some b
      → (a : A) × (get_elem? xs i ≡ some a) × (f a ≡ b)
  get_elem?-of_map f [] i h = cc
  get_elem?-of_map f (x ∷ xs) zero h = (x, refl, cc)
  get_elem?-of_map f (x ∷ xs) (suc i) h = get_elem?-of_map f xs i h

module _ {ℓ κ} {A : Type ℓ} (P : A → Type κ) where
  pub All-intro : (xs : List A) → ((i : ℕ) (a : A) → get_elem? xs i ≡ some a → P a) → All P xs
  All-intro [] h = tt
  All-intro (x ∷ xs) h = (h 0 x refl, All-intro xs (λ i. h (suc i)))

  pub All-get : (xs : List A) (i : ℕ) (a : A) → All P xs → get_elem? xs i ≡ some a → P a
  All-get [] i a p h = cc
  All-get (x ∷ xs) zero a p h = let e : x ≡ a = cc in subst P e p.0
  All-get (x ∷ xs) (suc i) a p h = All-get xs i a p.1 h

-- A number is in a list.
abbrev pub has : ℕ → List ℕ → Bool
has n [] = false
has n (k ∷ ks) = (n == k) || has n ks
