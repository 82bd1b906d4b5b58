-- ===== src/DraftVocab.antt =====
-- tools/build_draft_vocab.py and src/patch_mtp_draft_vocab.py: the ids that the drafter may propose,
-- and its logits over them. The tokenizer's ids and the tokens of the corpus, most common first, are
-- arguments. A row of the head and its product with a hidden state are parameters; a logit of -inf is
-- none. index_copy_ writes its columns in an order of its own, which is an argument.
mod Kept
mod Chosen
mod Slice
mod Logits
mod Examples
use qwen3_8_flash_dgx_auto_r.Common.{
  ℕ, zero, suc, ◌+◌, ◌-◌, ◌%◌, min, Bool, true, false, not, ◌&&◌, List, [], ◌∷◌, ◌++◌, map, Option,
  none, some, ltb, leb, ◌==◌, if◌then◌else◌, length, take, drop, replicate, get_elem?, is_empty,
  add, ℕ_discrete,
}
use qwen3_8_flash_dgx_auto_r.Common.Int.{ℤ, pos, negsuc}

-- `keep |= set(ids)`
pub add_all : List ℕ → List ℕ → List ℕ
add_all [] keep = keep
add_all (i ∷ ids) keep = add_all ids (add ℕ_discrete i keep)

-- `range(n)`, from `i` on.
pub range_from : ℕ → ℕ → List ℕ
range_from i zero = []
range_from i (suc n) = i ∷ range_from (i + 1) n

-- The special tokens and the byte fallbacks.
pub always_kept : List ℕ → ℕ → List ℕ
unfolding add_all range_from
always_kept specials vocab = add_all (range_from 0 (min 256 vocab)) (add_all specials [])

-- The loop over the tokens of the corpus.
pub add_ranked : ℕ → List ℕ → List ℕ → List ℕ
add_ranked n [] keep = keep
add_ranked n (t ∷ ranked) keep =
    let rest = add_ranked n ranked (add ℕ_discrete t keep) in
    if leb n (length keep) then keep else rest

-- The loop that fills with the lowest ids, where `left` ids are left below the vocabulary.
pub fill : ℕ → ℕ → ℕ → List ℕ → List ℕ
fill n i zero keep = keep
fill n i (suc left) keep =
    let rest = fill n (i + 1) left (add ℕ_discrete i keep) in
    if ltb (length keep) n then rest else keep

insert : ℕ → List ℕ → List ℕ
insert i [] = i ∷ []
insert i (k ∷ ks) = if ltb k i then k ∷ insert i ks else i ∷ k ∷ ks

-- `sorted(keep)`
pub sorted : List ℕ → List ℕ
unfolding insert
sorted [] = []
sorted (i ∷ is) = insert i (sorted is)

-- What the script saves.
pub draft_vocab : ℕ → ℕ → List ℕ → List ℕ → List ℕ
unfolding always_kept add_ranked fill sorted
draft_vocab n vocab specials ranked =
    sorted (fill n 0 vocab (add_ranked n ranked (always_kept specials vocab)))

-- `ids[(ids >= 0) & (ids < vocab)]`
pub select_ids : ℕ → List ℤ → List ℕ
select_ids vocab [] = []
select_ids vocab (pos i ∷ ids) =
    let rest = select_ids vocab ids in if ltb i vocab then i ∷ rest else rest
select_ids vocab (negsuc i ∷ ids) = select_ids vocab ids

-- `ids[-1]` after `i`.
pub last : ℕ → List ℕ → ℕ
last i [] = i
last i (k ∷ ks) = last k ks

pub pad : Bool → List ℕ → List ℕ
unfolding last
pad int4 [] = []
pad int4 (i ∷ ids) =
    let rest = length (i ∷ ids) % 64 in
    if int4 && not (rest == 0) then i ∷ ids ++ replicate (64 - rest) (last i ids) else i ∷ ids

-- The ids and rows that _dv_build takes.
pub reduced : ℕ → Bool → List ℤ → List ℕ
unfolding select_ids pad
reduced vocab int4 ids = pad int4 (select_ids vocab ids)

module _ {Logit : Type 0} where
  write : Option ℕ → Option Logit → (ℕ → Option Logit) → ℕ → Option Logit
  write none x full v = full v
  write (some i) none full v = full v
  write (some i) (some x) full v = if v == i then some x else full v

  -- `full.index_copy_(1, ids, red)`, with the columns in some order.
  pub index_copy : List ℕ → List ℕ → List Logit → (ℕ → Option Logit) → ℕ → Option Logit
  unfolding write
  index_copy [] ids red full = full
  index_copy (j ∷ order) ids red full =
      index_copy order ids red (write (get_elem? ids j) (get_elem? red j) full)

module _ {Row Logit : Type 0} (row : ℕ → Row) (product : Row → Logit) (chunk : ℕ) where
  -- `rows(sel[i:i + _DV_CHUNK]) for i in range(0, n, _DV_CHUNK)`, one after the other, on fuel.
  pub chunk_rows : ℕ → List ℕ → List Row
  chunk_rows zero sel = []
  chunk_rows (suc fuel) [] = []
  chunk_rows (suc fuel) (s ∷ sel) =
      map row (take chunk (s ∷ sel)) ++ chunk_rows fuel (drop chunk (s ∷ sel))

  -- `torch.cat` of the chunks, which raises RuntimeError when there is none.
  pub head_rows : List ℕ → Option (List Row)
  unfolding chunk_rows
  head_rows [] = none
  head_rows (s ∷ sel) = some (chunk_rows (length (s ∷ sel)) (s ∷ sel))

  -- `head(hidden_states)`
  pub scores : List ℕ → Option (List Logit)
  unfolding head_rows
  scores sel = elim (head_rows sel) [ none ↦ none | some rows ↦ some (map product rows) ]

  -- _dv_compute_logits of a token; there is a file of ids or none. The outer none is the exception.
  pub draft_logits : List ℕ → ℕ → ℕ → Bool → Option (List ℤ) → Option (ℕ → Option Logit)
  unfolding scores index_copy reduced range_from
  draft_logits order vocab out_f int4 none = elim (scores (range_from 0 out_f)) [
    | none ↦ none
    | some red ↦ some (get_elem? (take vocab red))
  ]
  draft_logits order vocab out_f int4 (some ids) =
      let sel = reduced vocab int4 ids in
      elim (scores sel) [ none ↦ none | some red ↦ some (index_copy order sel red (λ v. none)) ]
