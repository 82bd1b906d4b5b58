-- ===== src/Common/Sets.antt =====
-- Python sets and dicts over a type with decidable equality, as lists.
use Prim.Native.Nat.{◌+◌}
use mathlib.Core.Path.{◌≡◌, refl}
use mathlib.Core.Logic.{◌≢◌, ◌⊎◌, inl, inr}
use mathlib.Core.Bool.{Bool, true, false, ◌&&◌, ◌||◌}
use mathlib.Core.List.{List, [], ◌∷◌, ◌++◌, map}
use mathlib.Core.Option.{Option, none, some}
use native.Mathlib.Omega.{arith}
use qwen3_8_flash_dgx_auto_r.Common.Lists.{length, is_empty}

module _ {ℓ} {K : Type ℓ} (dec : Discrete K) where
  -- `k in s`
  unfoldable pub elem : K → List K → Bool
  elem k [] = false
  elem k (x ∷ xs) = elim (dec k x) [ yes _ ↦ true | no _ ↦ (elem k xs) ]

  -- `s.add(k)`
  unfoldable pub add : K → List K → List K
  add k xs = elim (elem k xs) [ true ↦ xs | false ↦ k ∷ xs ]

  -- `s.discard(k)`
  unfoldable pub discard : K → List K → List K
  discard k [] = []
  discard k (x ∷ xs) = elim (dec k x) [ yes _ ↦ (discard k xs) | no _ ↦ (x ∷ discard k xs) ]

  -- `set(l)`
  unfoldable pub to_set : List K → List K
  unfolding add
  to_set [] = []
  to_set (x ∷ xs) = add x (to_set xs)

  -- `l.remove(k)`: the first occurrence.
  unfoldable pub erase : K → List K → List K
  erase k [] = []
  erase k (x ∷ xs) = elim (dec k x) [ yes _ ↦ xs | no _ ↦ (x ∷ erase k xs) ]

  -- No element twice.
  unfoldable pub distinct : List K → Bool
  unfolding elem
  distinct [] = true
  distinct (x ∷ xs) = elim (elem x xs) [ true ↦ false | false ↦ distinct xs ]

  -- `a <= b` and `a == b` on sets.
  unfoldable pub subset : List K → List K → Bool
  unfolding elem
  subset [] ys = true
  subset (x ∷ xs) ys = elem x ys && subset xs ys

  unfoldable pub same_set : List K → List K → Bool
  unfolding subset
  same_set xs ys = subset xs ys && subset ys xs

  pub elem_of_is_empty : (k : K) (xs : List K) → is_empty xs ≡ true → elem k xs ≡ false
  unfolding elem
  elem_of_is_empty k [] h = refl
  elem_of_is_empty k (x ∷ xs) h = cc

  pub elem_self : (k : K) (xs : List K) → elem k (k ∷ xs) ≡ true
  unfolding elem
  elem_self k xs = ground arith

  pub elem-cons : (k x : K) (xs : List K) → elem k (x ∷ xs) ≡ true → (k ≡ x) ⊎ (elem k xs ≡ true)
  unfolding elem
  elem-cons k x xs h = elim (dec k x) [ yes e ↦ inl e | no n ↦ inr (ground arith) ]

  pub elem-cons_tail : (k x : K) (xs : List K) → elem k xs ≡ true → elem k (x ∷ xs) ≡ true
  unfolding elem
  elem-cons_tail k x xs h = ground arith

  pub not_elem-cons :
      (k x : K) (xs : List K) → elem k (x ∷ xs) ≡ false → (k ≢ x) × (elem k xs ≡ false)
  unfolding elem
  not_elem-cons k x xs h = ground arith

  pub distinct-cons :
      (x : K) (xs : List K) → distinct (x ∷ xs) ≡ true → (elem x xs ≡ false) × (distinct xs ≡ true)
  unfolding elem distinct
  distinct-cons x xs h = ground arith

  pub nil_of_no_elem : (xs : List K) → ((k : K) → elem k xs ≡ false) → xs ≡ []
  unfolding elem
  nil_of_no_elem [] h = refl
  nil_of_no_elem (x ∷ xs) h = cc (elem_self x xs, h x)

  pub elem-append : (k : K) (xs ys : List K) → elem k (xs ++ ys) ≡ (elem k xs || elem k ys)
  unfolding elem
  elem-append k [] ys = refl
  elem-append k (x ∷ xs) ys = ground (arith, elem-append k xs ys)

  pub elem-add :
      (k j : K) (xs : List K)
      → elem k (add j xs) ≡ elim (dec k j) [ yes _ ↦ true | no _ ↦ (elem k xs) ]
  unfolding elem add
  elem-add k j xs = ground arith

  pub elem-to_set : (k : K) (xs : List K) → elem k (to_set xs) ≡ elem k xs
  unfolding elem to_set
  elem-to_set k [] = refl
  elem-to_set k (x ∷ xs) = ground (arith, elem-add k x (to_set xs), elem-to_set k xs)

  pub elem-discard :
      (k j : K) (xs : List K)
      → elem k (discard j xs) ≡ elim (dec k j) [ yes _ ↦ false | no _ ↦ (elem k xs) ]
  unfolding elem discard
  elem-discard k j [] = ground arith
  elem-discard k j (x ∷ xs) = ground (arith, elem-discard k j xs)

  pub elem-erase_ne : (k j : K) (xs : List K) → k ≢ j → elem k (erase j xs) ≡ elem k xs
  unfolding elem erase
  elem-erase_ne k j [] h = refl
  elem-erase_ne k j (x ∷ xs) h = ground (arith, elem-erase_ne k j xs)

  pub elem-erase_self : (k : K) (xs : List K) → distinct xs ≡ true → elem k (erase k xs) ≡ false
  unfolding elem erase distinct
  elem-erase_self k [] h = refl
  elem-erase_self k (x ∷ xs) h = ground (arith, elem-erase_self k xs)

  pub distinct-erase : (k : K) (xs : List K) → distinct xs ≡ true → distinct (erase k xs) ≡ true
  unfolding elem erase distinct
  distinct-erase k [] h = refl
  distinct-erase k (x ∷ xs) h = ground (arith, distinct-erase k xs, elem-erase_ne x k xs)

  pub distinct-append_singleton :
      (k : K) (xs : List K)
      → distinct xs ≡ true
      → elem k xs ≡ false
      → distinct (xs ++ k ∷ []) ≡ true
  unfolding elem distinct
  distinct-append_singleton k [] h m = refl
  distinct-append_singleton k (x ∷ xs) h m =
      ground (arith, distinct-append_singleton k xs, elem-append x xs (k ∷ []))

  pub elem_of_subset :
      (k : K) (xs ys : List K) → subset xs ys ≡ true → elem k xs ≡ true → elem k ys ≡ true
  unfolding elem subset
  elem_of_subset k [] ys h m = cc
  elem_of_subset k (x ∷ xs) ys h m = ground (arith, elem_of_subset k xs ys)

  subset-cons : (x : K) (xs ys : List K) → subset xs ys ≡ true → subset xs (x ∷ ys) ≡ true
  unfolding elem subset
  subset-cons x [] ys h = refl
  subset-cons x (y ∷ xs) ys h = ground (arith, subset-cons x xs ys)

  pub subset_refl : (xs : List K) → subset xs xs ≡ true
  unfolding elem subset
  subset_refl [] = refl
  subset_refl (x ∷ xs) = ground (arith, subset-cons x xs xs, subset_refl xs)

  pub same_set_refl : (xs : List K) → same_set xs xs ≡ true
  unfolding same_set
  same_set_refl xs = ground (arith, subset_refl xs)

  pub elem-same_set : (k : K) (xs ys : List K) → same_set xs ys ≡ true → elem k xs ≡ elem k ys
  unfolding same_set
  elem-same_set k xs ys h = ground (arith, elem_of_subset k xs ys, elem_of_subset k ys xs)

-- A dict keeps its keys in insertion order.
module _ {ℓ κ} {K : Type ℓ} {V : Type κ} where
  abbrev pub keys : List (K × V) → List K
  keys = map (λ e. e.0)

  abbrev pub values : List (K × V) → List V
  values = map (λ e. e.1)

module _ {ℓ κ} {K : Type ℓ} {V : Type κ} (dec : Discrete K) where
  -- `d.get(k)`
  unfoldable pub lookup : K → List (K × V) → Option V
  lookup k [] = none
  lookup k ((j, v) ∷ d) = elim (dec k j) [ yes _ ↦ (some v) | no _ ↦ (lookup k d) ]

  -- `d[k] = v`
  unfoldable pub set : K → V → List (K × V) → List (K × V)
  set k v [] = (k, v) ∷ []
  set k v ((j, w) ∷ d) = elim (dec k j) [ yes _ ↦ ((k, v) ∷ d) | no _ ↦ ((j, w) ∷ set k v d) ]

  pub lookup-set :
      (k j : K) (v : V) (d : List (K × V))
      → lookup k (set j v d) ≡ elim (dec k j) [ yes _ ↦ (some v) | no _ ↦ (lookup k d) ]
  unfolding lookup set
  lookup-set k j v [] = refl
  lookup-set k j v ((i, w) ∷ d) = ground (arith, lookup-set k j v d)

  pub length-set_new :
      (k : K) (v : V) (d : List (K × V)) → lookup k d ≡ none → length (set k v d) ≡ length d + 1
  unfolding lookup set
  length-set_new k v [] h = omega arith
  length-set_new k v ((j, w) ∷ d) h = ground (arith, length-set_new k v d)

  pub values-set_new :
      (k : K) (v : V) (d : List (K × V))
      → lookup k d ≡ none
      → values (set k v d) ≡ values d ++ v ∷ []
  unfolding lookup set
  values-set_new k v [] h = refl
  values-set_new k v ((j, w) ∷ d) h = ground (arith, values-set_new k v d)

  pub lookup-eq-none : (k : K) (d : List (K × V)) → elem dec k (keys d) ≡ false → lookup k d ≡ none
  unfolding lookup elem
  lookup-eq-none k [] h = refl
  lookup-eq-none k ((j, w) ∷ d) h = ground (arith, lookup-eq-none k d)
