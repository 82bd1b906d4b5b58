-- ===== src/Fp8Hybrid/Paths.antt =====
-- The dotted names of src/vllm_fp8_hybrid.py as paths: what its tests of texts say of the components.
use qwen3_8_flash_dgx_auto_r.Common.{
  ℕ, ◌≡◌, refl, sym, ap, ◌∙◌, subst, ◌↔◌, inl, inr, Bool-cases, true, false, List, [], ◌∷◌, ◌++◌,
  is_empty, ◌==◌, ==_iff, if◌then◌else◌, arith,
}
use mathlib.Core.List.{append-nil, append_assoc}
use qwen3_8_flash_dgx_auto_r.Fp8Hybrid.{Text, text_eq, starts_with, has_dot, matches}

cons_head : ℕ → List Text → List Text
cons_head c [] = (c ∷ []) ∷ []
cons_head c (w ∷ ws) = (c ∷ w) ∷ ws

-- `name.split(".")`
pub components : Text → List Text
unfolding cons_head
components [] = [] ∷ []
components (c ∷ cs) = if c == b'.' then [] ∷ components cs else cons_head c (components cs)

-- `".".join(path)`
pub join : List Text → Text
join [] = []
join (w ∷ []) = w
join (w ∷ v ∷ ws) = w ++ b'.' ∷ join (v ∷ ws)

pub text_eq_iff : (s t : Text) → (text_eq s t ≡ true) ↔ (s ≡ t)
unfolding text_eq
text_eq_iff [] [] = ground arith
text_eq_iff [] (d ∷ ds) = ground arith
text_eq_iff (c ∷ cs) [] = ground arith
text_eq_iff (c ∷ cs) (d ∷ ds) = ground (arith, text_eq_iff cs ds)

starts_with-append : (s t : Text) → starts_with (s ++ t) s ≡ true
unfolding starts_with
starts_with-append [] t = refl
starts_with-append (c ∷ cs) t = ground (arith, starts_with-append cs t)

-- The rest of a text after a start.
starts_with-rest :
    (name start : Text) → starts_with name start ≡ true → (rest : Text) × (name ≡ start ++ rest)
unfolding starts_with
starts_with-rest name [] h = (name, refl)
starts_with-rest [] (d ∷ ds) h = cc
starts_with-rest (c ∷ cs) (d ∷ ds) h =
    let (rest, e) = starts_with-rest cs ds (ground arith) in (rest, ground arith)

cons_head-append :
    (c : ℕ) (u ws : List Text) → is_empty u ≡ false → cons_head c (u ++ ws) ≡ cons_head c u ++ ws
unfolding cons_head
cons_head-append c [] ws h = cc
cons_head-append c (w ∷ u) ws h = refl

cons_head-is_empty : (c : ℕ) (u : List Text) → is_empty (cons_head c u) ≡ false
unfolding cons_head
cons_head-is_empty c [] = refl
cons_head-is_empty c (w ∷ u) = refl

components-is_empty : (s : Text) → is_empty (components s) ≡ false
unfolding components
components-is_empty [] = refl
components-is_empty (c ∷ cs) = elim (Bool-cases (c == b'.')) [
  | inl e ↦ rw e refl
  | inr e ↦ rw e (cons_head-is_empty c (components cs))
]

pub components-append : (s t : Text) → components (s ++ b'.' ∷ t) ≡ components s ++ components t
unfolding components
components-append [] t = refl
components-append (c ∷ cs) t = elim (Bool-cases (c == b'.')) [
  | inl e ↦ rw e (ap (◌∷◌ []) (components-append cs t))
  | inr e ↦ rw e (
      ap (cons_head c) (components-append cs t)
      ∙ cons_head-append c (components cs) (components t) (components-is_empty cs))
]

pub components_undotted : (proj : Text) → has_dot proj ≡ false → components proj ≡ proj ∷ []
unfolding components has_dot
components_undotted [] h = refl
components_undotted (c ∷ cs) h = ground (arith, components_undotted cs)

join-cons_head : (c : ℕ) (u : List Text) → is_empty u ≡ false → join (cons_head c u) ≡ c ∷ join u
unfolding join cons_head
join-cons_head c [] h = cc
join-cons_head c (w ∷ []) h = refl
join-cons_head c (w ∷ v ∷ u) h = refl

join-nil_cons : (u : List Text) → is_empty u ≡ false → join ([] ∷ u) ≡ b'.' ∷ join u
unfolding join
join-nil_cons [] h = cc
join-nil_cons (w ∷ u) h = refl

pub join-components : (s : Text) → join (components s) ≡ s
unfolding components join
join-components [] = refl
join-components (c ∷ cs) =
    let more = components-is_empty cs in
    elim (Bool-cases (c == b'.')) [
      | inl e ↦ rw e (
          join-nil_cons (components cs) more
          ∙ ap (◌∷◌ b'.') (join-components cs)
          ∙ ap (λ d. d ∷ cs) (sym ((==_iff c b'.').0 e)))
      | inr e ↦ rw e (join-cons_head c (components cs) more ∙ ap (◌∷◌ c) (join-components cs))
    ]

join-append :
    (u : List Text) (w : Text) (ws : List Text)
    → is_empty u ≡ false
    → join (u ++ w ∷ ws) ≡ join u ++ b'.' ∷ join (w ∷ ws)
unfolding join
join-append [] w ws h = cc
join-append (v ∷ []) w ws h = refl
join-append (v ∷ x ∷ u) w ws h =
    ap (λ r. v ++ b'.' ∷ r) (join-append (x ∷ u) w ws refl)
    ∙ sym (append_assoc v (b'.' ∷ join (x ∷ u)) (b'.' ∷ join (w ∷ ws)))

-- One path begins with another.
abbrev pub IsUnder : List Text → List Text → Type 0
IsUnder path layer = (rest : List Text) × (path ≡ layer ++ rest)

pub matches_to : (l n : Text) → matches l n ≡ true → IsUnder (components n) (components l)
unfolding matches
matches_to l n h = elim (Bool-cases (text_eq l n)) [
  | inl e ↦ ([], ap components (sym ((text_eq_iff l n).0 e)) ∙ sym (append-nil (components l)))
  | inr e ↦
      let (rest, at) = starts_with-rest n (l ++ b'.' ∷ []) (ground arith) in
      (
        components rest,
        ap components (at ∙ append_assoc l (b'.' ∷ []) rest) ∙ components-append l rest,
      )
]

pub matches_of :
    (l n : Text) (rest : List Text) → components n ≡ components l ++ rest → matches l n ≡ true
unfolding matches
matches_of l n [] e =
    let same : l ≡ n =
      sym (join-components l)
      ∙ ap join (sym (append-nil (components l)) ∙ sym e)
      ∙ join-components n in
    ground (arith, (text_eq_iff l n).1 same)
matches_of l n (w ∷ ws) e =
    let at : n ≡ (l ++ b'.' ∷ []) ++ join (w ∷ ws) =
      sym (join-components n)
      ∙ ap join e
      ∙ join-append (components l) w ws (components-is_empty l)
      ∙ ap (λ s. s ++ b'.' ∷ join (w ∷ ws)) (join-components l)
      ∙ sym (append_assoc l (b'.' ∷ []) (join (w ∷ ws))) in
    let starts : starts_with n (l ++ b'.' ∷ []) ≡ true =
      subst (λ m. starts_with m (l ++ b'.' ∷ []) ≡ true) (sym at)
        (starts_with-append (l ++ b'.' ∷ []) (join (w ∷ ws))) in
    ground arith

-- The test on texts is the test on paths.
pub matches_iff : (l n : Text) → (matches l n ≡ true) ↔ IsUnder (components n) (components l)
matches_iff l n = (matches_to l n, λ u. matches_of l n u.0 u.1)
