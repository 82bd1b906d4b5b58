-- ===== src/Ple/Shards/Mapped.antt =====
-- The loops of _find_shards of src/vllm_ple_mmap.py, shard by shard.
use qwen3_8_flash_dgx_auto_r.Common.{
  ℕ, ◌+◌, ◌*◌, ◌≡◌, refl, sym, ap, ◌∙◌, subst, true, List, [], ◌∷◌, Option, none, some, ◌==◌,
  if◌then◌else◌, All, lookup, lookup-set, set, ℕ_discrete, inl, inr, Bool-cases, some_injective,
  arith,
}
use qwen3_8_flash_dgx_auto_r.Ple.Shards.{
  Dtype, TensorName, shard, weight_scale, metadata, other_name, Meta, Header, Checked, ShardFault,
  size_mismatch, mixed_dtypes, good, fault, ShardEntry, Search, itemsize, dtype_code, same_dtype,
  agrees, add_shard, visit, then_search, visit_header, find_shards, f8_e4m3, f8_e5m2, u8, i8, bf16,
  f16, f32, other_dtype,
}

of_code : ℕ → Dtype
of_code n =
    if n == 0
    then f8_e4m3
    else if n == 1
    then f8_e5m2
    else if n == 2
    then u8
    else if n == 3
    then i8
    else if n == 4
    then bf16
    else if n == 5
    then f16
    else if n == 6
    then f32
    else other_dtype

of_code_lem : (d : Dtype) → of_code (dtype_code d) ≡ d
unfolding of_code dtype_code
of_code_lem f8_e4m3 = refl
of_code_lem f8_e5m2 = refl
of_code_lem u8 = refl
of_code_lem i8 = refl
of_code_lem bf16 = refl
of_code_lem f16 = refl
of_code_lem f32 = refl
of_code_lem other_dtype = refl

same_dtype_sound : (d e : Dtype) → same_dtype d e ≡ true → d ≡ e
unfolding same_dtype
same_dtype_sound d e h =
    let codes : dtype_code d ≡ dtype_code e = ground (arith, h) in
    sym (of_code_lem d) ∙ ap of_code codes ∙ of_code_lem e

agrees-same : (o : Option Dtype) (d d' : Dtype) → agrees o d ≡ true → o ≡ some d' → d' ≡ d
agrees-same none d d' a e = cc
agrees-same (some c) d d' a e = sym (some_injective e) ∙ sym (same_dtype_sound d c a)

good_or : Checked Search → Search → Search
good_or (good s) t = s
good_or (fault f) t = t

good_injective : (s t : Search) → ◌≡◌ {A = Checked Search} (good s) (good t) → s ≡ t
unfolding good_or
good_injective s t e = ap (λ c. good_or c s) e

bad_not_good : (f : ShardFault) (s : Search) → ¬ (◌≡◌ {A = Checked Search} (fault f) (good s))
bad_not_good f s e = cc

then_search-inv :
    {A : Type 0} (c : Checked A) (next : A → Checked Search) (s : Search)
    → then_search c next ≡ good s
    → (a : A) × (c ≡ good a) × (next a ≡ good s)
then_search-inv (fault f) next s e = cc
then_search-inv (good a) next s e = (a, refl, e)

-- Where an entry of a header was read: the file, where its data starts, the name and the rest.
abbrev Place : Type 1
Place = ℕ → ℕ → TensorName × Meta → Type 0

module _ (Read : Place) where
  -- A shard is as its header says, of the dtype of the search, and as long as its shape makes it.
  pub record IsMapped (s : Search) (n : ℕ) (e : ShardEntry) : Type 0 where
    pub data_start : ℕ
    pub meta : Meta
    pub size : ℕ
    pub read_of : Read e.path data_start (shard n, meta)
    pub offset_of : e.offset ≡ data_start + meta.start
    pub rows_of : e.rows ≡ meta.rows
    pub dtype_of : s.dtype_str ≡ some meta.dtype
    pub size_of : itemsize meta.dtype ≡ some size
    pub bytes_of : meta.stop ≡ meta.start + meta.rows * meta.cols * size

  abbrev pub AreMapped : Search → Type 0
  AreMapped s = (n : ℕ) (e : ShardEntry) → lookup ℕ_discrete n s.shards ≡ some e → IsMapped s n e

  -- The search with one shard more.
  abbrev added : ℕ → ℕ → ℕ → Meta → Search → Search
  added path data_start n m s = record s {
    shards =
        set ℕ_discrete n (record { path = path; offset = data_start + m.start; rows = m.rows })
          s.shards;
    dtype_str = some m.dtype;
    shard_cols = m.cols;
  }

  added-IsMapped :
      (path data_start n : ℕ) (m : Meta) (size : ℕ) (s : Search)
      → itemsize m.dtype ≡ some size
      → agrees s.dtype_str m.dtype ≡ true
      → m.stop ≡ m.start + m.rows * m.cols * size
      → Read path data_start (shard n, m)
      → AreMapped s
      → AreMapped (added path data_start n m s)
  added-IsMapped path data_start n m size s sized same_type fits read mapped k e f =
      elim (ℕ_discrete k n) [
        | yes here ↦
            let found : lookup ℕ_discrete k (added path data_start n m s).shards
                ≡ some (record { path = path; offset = data_start + m.start; rows = m.rows }) =
              lookup-set ℕ_discrete k n _ s.shards ∙ ground (arith, here) in
            subst (IsMapped (added path data_start n m s) k) (some_injective (sym found ∙ f))
              (record {
                data_start = data_start;
                meta = m;
                size = size;
                read_of = subst (λ i. Read path data_start (shard i, m)) (sym here) read;
                offset_of = refl;
                rows_of = refl;
                dtype_of = refl;
                size_of = sized;
                bytes_of = fits;
              })
        | no other ↦
            let found : lookup ℕ_discrete k (added path data_start n m s).shards
                ≡ lookup ℕ_discrete k s.shards =
              lookup-set ℕ_discrete k n _ s.shards ∙ ground (arith, other) in
            let before = mapped k e (sym found ∙ f) in
            record {
              data_start = before.data_start;
              meta = before.meta;
              size = before.size;
              read_of = before.read_of;
              offset_of = before.offset_of;
              rows_of = before.rows_of;
              dtype_of = ap some (
                  sym
                    (agrees-same s.dtype_str m.dtype before.meta.dtype same_type before.dtype_of));
              size_of = before.size_of;
              bytes_of = before.bytes_of;
            }
      ]

  add_shard-AreMapped :
      (path data_start n : ℕ) (m : Meta) (o : Option ℕ) (s s' : Search)
      → itemsize m.dtype ≡ o
      → agrees s.dtype_str m.dtype ≡ true
      → Read path data_start (shard n, m)
      → AreMapped s
      → add_shard path data_start n m o s ≡ good s'
      → AreMapped s'
  unfolding add_shard
  add_shard-AreMapped path data_start n m none s s' sized same_type read mapped e = cc
  add_shard-AreMapped path data_start n m (some size) s s' sized same_type read mapped e =
      elim (Bool-cases (m.stop == (m.start + m.rows * m.cols * size))) [
        | inl fits ↦
            let made : add_shard path data_start n m (some size) s
                ≡ good (added path data_start n m s) =
              rw fits refl in
            subst AreMapped (good_injective (added path data_start n m s) s' (sym made ∙ e)) (
              added-IsMapped path data_start n m size s sized same_type (ground (arith, fits)) read
                mapped)
        | inr short ↦
            let made : add_shard path data_start n m (some size) s ≡ fault size_mismatch =
              rw short refl in
            absurd (bad_not_good _ s' (sym made ∙ e))
      ]

  visit-AreMapped :
      (path data_start : ℕ) (t : TensorName) (m : Meta) (s s' : Search)
      → Read path data_start (t, m)
      → AreMapped s
      → visit path data_start (t, m) s ≡ good s'
      → AreMapped s'
  unfolding visit
  visit-AreMapped path data_start (shard n) m s s' read mapped e =
      elim (Bool-cases (agrees s.dtype_str m.dtype)) [
        | inl same_type ↦
            add_shard-AreMapped path data_start n m (itemsize m.dtype) s s' refl same_type read
              mapped (sym (rw same_type refl) ∙ e)
        | inr mixed ↦
            let made : visit path data_start (shard n, m) s ≡ fault mixed_dtypes = rw mixed refl in
            absurd (bad_not_good _ s' (sym made ∙ e))
      ]
  visit-AreMapped path data_start weight_scale m s s' read mapped e =
      subst AreMapped (good_injective _ s' e) (λ n f g.
        let v = mapped n f g in
        record {
          data_start = v.data_start;
          meta = v.meta;
          size = v.size;
          read_of = v.read_of;
          offset_of = v.offset_of;
          rows_of = v.rows_of;
          dtype_of = v.dtype_of;
          size_of = v.size_of;
          bytes_of = v.bytes_of;
        })
  visit-AreMapped path data_start metadata m s s' read mapped e =
      subst AreMapped (good_injective s s' e) mapped
  visit-AreMapped path data_start other_name m s s' read mapped e =
      subst AreMapped (good_injective s s' e) mapped

  visit_header-AreMapped :
      (path data_start : ℕ) (header : Header) (s s' : Search)
      → All (Read path data_start) header
      → AreMapped s
      → visit_header path data_start header s ≡ good s'
      → AreMapped s'
  unfolding visit_header
  visit_header-AreMapped path data_start [] s s' read mapped e =
      subst AreMapped (good_injective s s' e) mapped
  visit_header-AreMapped path data_start ((t, m) ∷ header) s s' (r, read) mapped e =
      let (mid, first, rest) =
        then_search-inv (visit path data_start (t, m) s) (visit_header path data_start header) s'
          e in
      visit_header-AreMapped path data_start header mid s' read
        (visit-AreMapped path data_start t m s mid r mapped first) rest

  -- What was read of a file that parses.
  abbrev pub WasRead : ℕ → Checked (Header × ℕ) → Type 0
  WasRead path (good (header, data_start)) = All (Read path data_start) header
  WasRead path (fault f) = Unit

  abbrev pub WereRead : ℕ → List (Checked (Header × ℕ)) → Type 0
  WereRead path [] = Unit
  WereRead path (f ∷ files) = WasRead path f × WereRead (path + 1) files

  pub find_shards-AreMapped :
      (path : ℕ) (files : List (Checked (Header × ℕ))) (s s' : Search)
      → WereRead path files
      → AreMapped s
      → find_shards path files s ≡ good s'
      → AreMapped s'
  unfolding find_shards
  find_shards-AreMapped path [] s s' read mapped e = subst AreMapped (good_injective s s' e) mapped
  find_shards-AreMapped path (fault f ∷ files) s s' read mapped e = cc
  find_shards-AreMapped path (good (header, data_start) ∷ files) s s' (r, read) mapped e =
      let (mid, first, rest) =
        then_search-inv (visit_header path data_start header s) (find_shards (path + 1) files) s'
          e in
      find_shards-AreMapped (path + 1) files mid s' read
        (visit_header-AreMapped path data_start header s mid r mapped first) rest
