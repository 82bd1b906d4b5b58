-- ===== src/Mamba/Columns/Stage.antt =====
-- preprocess_mamba of src/mamba_utils_guarded.py, request by request.
use qwen3_8_flash_dgx_auto_r.Common.{
  ℕ, zero, suc, ◌+◌, ◌-◌, ◌/◌, ◌<◌, ◌≡◌, ◌≢◌, refl, sym, ap, ◌∙◌, true, false, not, ◌&&◌, inl, inr,
  List, [], ◌∷◌, Option, some, get_or, map, keys, if◌then◌else◌, All, elem, distinct, lookup, set,
  lookup-set, ℕ_discrete, Bool-cases, arith,
}
use native.Mathlib.Nat.{add-div_right, div-eq_of_lt}
use qwen3_8_flash_dgx_auto_r.Common.Int.{ℤ, negsuc, eq_ℤ, pred_ℤ}
use qwen3_8_flash_dgx_auto_r.Mamba.Columns.{
  Columns, Staged, seed_idx, cdiv, curr_idx, stage, new_idx, stage_request, preprocess_mamba,
}

-- For a positive block size, the column that a request without an entry is seeded with is the one
-- that the step before has stored for it, when all of that step's tokens count as computed.
pub seed_idx-curr_idx :
    (block_size num_speculative tokens : ℕ)
    → 0 < block_size
    → seed_idx block_size tokens ≡ curr_idx block_size num_speculative tokens
unfolding seed_idx curr_idx cdiv
seed_idx-curr_idx block_size spec zero pos_size =
    let none_yet : (0 + (block_size - 1)) / block_size ≡ 0 =
      div-eq_of_lt (omega (arith, pos_size)) in
    let blocks : (0 + (block_size - 1)) / block_size + spec - spec ≡ 0 = omega (arith, none_yet) in
    sym (ap pred_ℤ blocks)
seed_idx-curr_idx block_size spec (suc n) pos_size =
    let ends : (suc n + (block_size - 1)) / block_size ≡ n / block_size + 1 =
      ap (λ k. k / block_size) (omega (arith, pos_size)) ∙ add-div_right n pos_size in
    let blocks : (suc n + (block_size - 1)) / block_size + spec - spec ≡ suc (n / block_size) =
      omega (arith, ends) in
    sym (ap pred_ℤ blocks)

-- The speculative blocks are added and taken away again.
pub curr_idx-div :
    (block_size num_speculative tokens : ℕ)
    → 0 < block_size
    → curr_idx block_size num_speculative tokens ≡ pred_ℤ ((tokens + block_size - 1) / block_size)
unfolding curr_idx cdiv
curr_idx-div block_size spec tokens h =
    let sum : tokens + (block_size - 1) ≡ tokens + block_size - 1 = omega (arith, h) in
    let blocks : cdiv tokens block_size + spec - spec ≡ cdiv tokens block_size = omega arith in
    ap pred_ℤ (blocks ∙ ap (λ k. k / block_size) sum)

stage-some :
    (prev curr : ℤ) (accepted : ℕ)
    → 0 < accepted
    → (s : Staged) × (stage prev curr accepted ≡ some s)
unfolding stage
stage-some prev curr zero h = absurd (omega (arith, h))
stage-some prev curr (suc bias) h =
    elim (Bool-cases (not (eq_ℤ prev (negsuc 0)) && not (eq_ℤ prev curr))) [
      | inl e ↦ rw e (_, refl)
      | inr e ↦ rw e (_, refl)
    ]

module _ (block_size num_speculative : ℕ) (computed scheduled : ℕ → ℕ) where
  abbrev next : ℕ → ℤ
  next = new_idx block_size num_speculative computed scheduled

  abbrev staged : Columns → ℕ × ℕ → Option Staged
  staged = stage_request block_size num_speculative computed scheduled

  abbrev loop : Columns → List (ℕ × ℕ) → Option (Columns × List Staged)
  loop = preprocess_mamba block_size num_speculative computed scheduled

  staged-set :
      (d : Columns) (req : ℕ) (v : ℤ) (r : ℕ × ℕ)
      → r.0 ≢ req
      → staged (set ℕ_discrete req v d) r ≡ staged d r
  unfolding stage_request
  staged-set d req v (r, accepted) other =
      let same : lookup ℕ_discrete r (set ℕ_discrete req v d) ≡ lookup ℕ_discrete r d =
        lookup-set ℕ_discrete r req v d ∙ ground (arith, other) in
      ap (λ o. stage (get_or o (seed_idx block_size (computed r))) (next r) accepted) same

  map-staged-set :
      (d : Columns) (req : ℕ) (v : ℤ) (reqs : List (ℕ × ℕ))
      → elem ℕ_discrete req (keys reqs) ≡ false
      → map (staged (set ℕ_discrete req v d)) reqs ≡ map (staged d) reqs
  unfolding elem
  map-staged-set d req v [] h = refl
  map-staged-set d req v (r ∷ reqs) h =
      let apart : r.0 ≢ req = λ e. ground (arith, h, e) in
      let others : elem ℕ_discrete req (keys reqs) ≡ false = ground (arith, h) in
      rw (staged-set d req v r apart, map-staged-set d req v reqs others) refl

  -- What the loop is for: each request is staged from the columns before the step, its entry becomes
  -- the new column, and the other entries stay.
  pub record IsStaged (d : Columns) (reqs : List (ℕ × ℕ)) (d' : Columns) (ss : List Staged)
      : Type 0 where
    pub each : map (staged d) reqs ≡ map some ss
    pub stored :
        (req : ℕ)
        → lookup ℕ_discrete req d'
          ≡ (if elem ℕ_discrete req (keys reqs) then some (next req) else lookup ℕ_discrete req d)

  staged-some :
      (d : Columns) (req accepted : ℕ)
      → 0 < accepted
      → (s : Staged) × (staged d (req, accepted) ≡ some s)
  unfolding stage_request
  staged-some d req accepted h =
      stage-some (get_or (lookup ℕ_discrete req d) (seed_idx block_size (computed req))) (next req)
        accepted h

  stored-cons :
      (d d' : Columns) (req : ℕ) (reqs : List (ℕ × ℕ)) (r : ℕ)
      → elem ℕ_discrete req (keys reqs) ≡ false
      → lookup ℕ_discrete r d' ≡ (
          if elem ℕ_discrete r (keys reqs)
          then some (next r)
          else lookup ℕ_discrete r (set ℕ_discrete req (next req) d))
      → lookup ℕ_discrete r d'
        ≡ (if elem ℕ_discrete r (req ∷ keys reqs) then some (next r) else lookup ℕ_discrete r d)
  unfolding elem
  stored-cons d d' req reqs r apart e = elim (ℕ_discrete r req) [
    | yes same ↦
        let absent : elem ℕ_discrete r (keys reqs) ≡ false =
          ap (λ n. elem ℕ_discrete n (keys reqs)) same ∙ apart in
        ground (arith, e, absent, same, ap next same, lookup-set ℕ_discrete r req (next req) d)
    | no other ↦ ground (arith, e, other, lookup-set ℕ_discrete r req (next req) d)
  ]

  -- When each request of the batch has an accepted token and occurs once, no assertion of the loop
  -- of preprocess_mamba fails, and the loop stages each request from the columns before the step,
  -- stores its new column, and leaves the entries of other requests.
  pub preprocess_mamba-IsStaged :
      (reqs : List (ℕ × ℕ)) (d : Columns)
      → distinct ℕ_discrete (keys reqs) ≡ true
      → All (λ r. 0 < r.1) reqs
      → (d' : Columns) × (ss : List Staged) × (loop d reqs ≡ some (d', ss)) × IsStaged d reqs d' ss
  unfolding preprocess_mamba elem distinct
  preprocess_mamba-IsStaged [] d once h =
      (d, [], refl, record { each = refl; stored = λ req. refl })
  preprocess_mamba-IsStaged ((req, accepted) ∷ reqs) d once (h, hs) =
      let apart : elem ℕ_discrete req (keys reqs) ≡ false = ground (arith, once) in
      let others : distinct ℕ_discrete (keys reqs) ≡ true = ground (arith, once) in
      let (s, e) = staged-some d req accepted h in
      let (d', ss, run, v) =
        preprocess_mamba-IsStaged reqs (set ℕ_discrete req (next req) d) others hs in
      (
        d',
        s ∷ ss,
        rw (preprocess_mamba, e, run) refl,
        record {
          each = rw (e, sym (map-staged-set d req (next req) reqs apart), v.each) refl;
          stored = λ r. stored-cons d d' req reqs r apart (v.stored r);
        },
      )
