-- ===== src/Mamba/Groups/Members.antt =====
-- Which groups get_mamba_group_ids of src/mamba_utils_guarded.py lists.
use qwen3_8_flash_dgx_auto_r.Common.{
  ℕ, zero, suc, ◌+◌, ◌-◌, ◌<◌, ◌≡◌, refl, sym, ap, ◌∙◌, Bool, true, false, not, ◌&&◌, ◌||◌, List,
  [], ◌∷◌, Option, none, some, is_none, ltb, ltb→lt, leb, ◌==◌, has, All, some_injective, inl, inr,
  Bool-cases, arith,
}
use qwen3_8_flash_dgx_auto_r.Mamba.Groups.{
  Group, Groups, as_mamba, first_spec, get_mamba_spec_for_layer, insert_id, add_group, with_spec,
  add_layers, then_groups, add_groups, some_groups, get_mamba_groups, insert_ids,
  get_mamba_group_ids,
}

-- The ids of all keys.
abbrev all_have : ℕ → Groups → Bool
all_have j [] = false
all_have j ((spec, ids) ∷ groups) = has j ids || all_have j groups

abbrev is_empty : List ℕ → Bool
is_empty [] = true
is_empty (n ∷ ns) = false

-- A group counts when its first spec is a MambaSpec and it has a layer.
abbrev pub is_mamba : Group → Bool
is_mamba g = not (is_none (as_mamba (first_spec g.kv_cache_spec))) && not (is_empty g.layer_names)

abbrev pub is_mamba_at : List Group → ℕ → Bool
is_mamba_at [] i = false
is_mamba_at (g ∷ gs) zero = is_mamba g
is_mamba_at (g ∷ gs) (suc i) = is_mamba_at gs i

abbrev pub IsIncreasing : List ℕ → Type 0
IsIncreasing [] = Unit
IsIncreasing (n ∷ ns) = All (λ m. n < m) ns × IsIncreasing ns

has-insert_id : (j i : ℕ) (js : List ℕ) → has j (insert_id i js) ≡ ((j == i) || has j js)
unfolding insert_id
has-insert_id j i [] = refl
has-insert_id j i (k ∷ ks) = ground (arith, has-insert_id j i ks)

has-insert_ids : (j : ℕ) (is js : List ℕ) → has j (insert_ids is js) ≡ (has j is || has j js)
unfolding insert_ids
has-insert_ids j [] js = refl
has-insert_ids j (i ∷ is) js =
    ground (arith, has-insert_id j i (insert_ids is js), has-insert_ids j is js)

insert_id-All :
    (n i : ℕ) (js : List ℕ) → n < i → All (λ m. n < m) js → All (λ m. n < m) (insert_id i js)
unfolding insert_id
insert_id-All n i [] lt above = (lt, tt)
insert_id-All n i (j ∷ js) lt (h, above) = elim (Bool-cases (i == j)) [
  | inl same ↦ rw same (h, above)
  | inr apart ↦ elim (Bool-cases (ltb i j)) [
    | inl before ↦ rw (apart, before) (lt, (h, above))
    | inr after ↦ rw (apart, after) (h, insert_id-All n i js lt above)
  ]
]

All-below : (n k : ℕ) (js : List ℕ) → n < k → All (λ m. k < m) js → All (λ m. n < m) js
All-below n k [] lt above = tt
All-below n k (j ∷ js) lt (h, above) = (omega (arith, lt, h), All-below n k js lt above)

insert_id-IsIncreasing : (i : ℕ) (js : List ℕ) → IsIncreasing js → IsIncreasing (insert_id i js)
unfolding insert_id
insert_id-IsIncreasing i [] up = (tt, tt)
insert_id-IsIncreasing i (j ∷ js) (above, up) = elim (Bool-cases (i == j)) [
  | inl same ↦ rw same (above, up)
  | inr apart ↦ elim (Bool-cases (ltb i j)) [
    | inl before ↦
        let lt = ltb→lt i j before in
        rw (apart, before) ((lt, All-below i j js lt above), (above, up))
    | inr after ↦
        rw (apart, after)
          (
            insert_id-All j i js (ground (arith, apart, after)) above,
            insert_id-IsIncreasing i js up,
          )
  ]
]

insert_ids-IsIncreasing : (is js : List ℕ) → IsIncreasing js → IsIncreasing (insert_ids is js)
unfolding insert_ids
insert_ids-IsIncreasing [] js up = up
insert_ids-IsIncreasing (i ∷ is) js up =
    insert_id-IsIncreasing i (insert_ids is js) (insert_ids-IsIncreasing is js up)

ids-IsIncreasing : (groups : Groups) → IsIncreasing (get_mamba_group_ids groups)
unfolding get_mamba_group_ids
ids-IsIncreasing [] = tt
ids-IsIncreasing ((spec, ids) ∷ groups) =
    insert_ids-IsIncreasing ids (get_mamba_group_ids groups) (ids-IsIncreasing groups)

has-group_ids : (j : ℕ) (groups : Groups) → has j (get_mamba_group_ids groups) ≡ all_have j groups
unfolding get_mamba_group_ids
has-group_ids j [] = refl
has-group_ids j ((spec, ids) ∷ groups) =
    ground (arith, has-insert_ids j ids (get_mamba_group_ids groups), has-group_ids j groups)

all_have-add_group :
    (j spec i : ℕ) (groups : Groups)
    → all_have j (add_group spec i groups) ≡ ((j == i) || all_have j groups)
unfolding add_group
all_have-add_group j spec i [] = ground arith
all_have-add_group j spec i ((k, ids) ∷ groups) =
    ground (arith, all_have-add_group j spec i groups, has-insert_id j i ids)

with_spec-inv :
    (o : Option ℕ) (next : ℕ → Option Groups) (made : Groups)
    → with_spec o next ≡ some made
    → (spec : ℕ) × (next spec ≡ some made)
with_spec-inv none next made e = cc
with_spec-inv (some spec) next made e = (spec, e)

then_groups-inv :
    (o : Option Groups) (next : Groups → Option Groups) (made : Groups)
    → then_groups o next ≡ some made
    → (mid : Groups) × (o ≡ some mid) × (next mid ≡ some made)
then_groups-inv none next made e = cc
then_groups-inv (some mid) next made e = (mid, refl, e)

all_have-add_layers :
    (j : ℕ) (g : Group) (i : ℕ) (names : List ℕ) (groups made : Groups)
    → add_layers g i names groups ≡ some made
    → all_have j made ≡ (((j == i) && not (is_empty names)) || all_have j groups)
unfolding add_layers
all_have-add_layers j g i [] groups made e =
    let same = ap (all_have j) (some_injective e) in ground (arith, same)
all_have-add_layers j g i (name ∷ names) groups made e =
    let (spec, e') =
      with_spec-inv (get_mamba_spec_for_layer g name)
        (λ spec. add_layers g i names (add_group spec i groups)) made e in
    ground (
      arith,
      all_have-add_layers j g i names (add_group spec i groups) made e',
      all_have-add_group j spec i groups,
    )

-- One group of the loop.
all_have-visit :
    (j i : ℕ) (g : Group) (groups mid : Groups) (o : Option ℕ)
    → o ≡ as_mamba (first_spec g.kv_cache_spec)
    → elim o [ none ↦ some groups | some spec ↦ add_layers g i g.layer_names groups ] ≡ some mid
    → all_have j mid ≡ (((j == i) && is_mamba g) || all_have j groups)
all_have-visit j i g groups mid none first e =
    let same = ap (all_have j) (some_injective e) in rw (sym first) (ground (arith, same))
all_have-visit j i g groups mid (some spec) first e =
    rw (sym first) (all_have-add_layers j g i g.layer_names groups mid e)

the_first : (j i : ℕ) → (j == i) ≡ true → j - i ≡ 0
the_first j i e = ground (arith, e)

some_groups-same : (made groups : Groups) → some_groups made ≡ some groups → made ≡ groups
some_groups-same [] groups e = cc
some_groups-same (g ∷ made) groups e = some_injective e

all_have-add_groups :
    (j i : ℕ) (gs : List Group) (groups made : Groups)
    → add_groups i gs groups ≡ some made
    → all_have j made ≡ ((leb i j && is_mamba_at gs (j - i)) || all_have j groups)
unfolding add_groups
all_have-add_groups j i [] groups made e =
    let same = ap (all_have j) (some_injective e) in ground (arith, same)
all_have-add_groups j i (g ∷ gs) groups made e =
    let (mid, visit, e') = then_groups-inv _ (add_groups (i + 1) gs) made e in
    let here = all_have-visit j i g groups mid (as_mamba (first_spec g.kv_cache_spec)) refl visit in
    let rest = all_have-add_groups j (i + 1) gs mid made e' in
    elim (Bool-cases (leb (i + 1) j)) [
      | inl later ↦
          let further : j - i ≡ suc (j - (i + 1)) = ground (arith, later) in
          let found : is_mamba_at (g ∷ gs) (j - i) ≡ is_mamba_at gs (j - (i + 1)) =
            rw further refl in
          ground (arith, later, here, rest, found)
      | inr not_later ↦ elim (Bool-cases (j == i)) [
        | inl same ↦
            let first : is_mamba_at (g ∷ gs) (j - i) ≡ is_mamba g = rw (the_first j i same) refl in
            ground (arith, not_later, same, here, rest, first)
        | inr apart ↦ ground (arith, not_later, apart, here, rest)
      ]
    ]

-- When get_mamba_groups returns, get_mamba_group_ids lists in increasing order each group whose
-- first spec is a MambaSpec and that has a layer, and no other number.
pub get_mamba_group_ids-members :
    (gs : List Group) (groups : Groups)
    → get_mamba_groups gs ≡ some groups
    → IsIncreasing (get_mamba_group_ids groups)
      × ((j : ℕ) → has j (get_mamba_group_ids groups) ≡ is_mamba_at gs j)
unfolding get_mamba_groups
get_mamba_group_ids-members gs groups e =
    let (made, added, kept) = then_groups-inv (add_groups 0 gs []) some_groups groups e in
    let same : made ≡ groups = some_groups-same made groups kept in
    (
      ids-IsIncreasing groups,
      λ j.
          has-group_ids j groups
          ∙ sym (ap (all_have j) same)
          ∙ ground (arith, all_have-add_groups j 0 gs [] made added),
    )
