-- ===== src/Ple/Shards/Found.antt =====
-- What _find_shards of src/vllm_ple_mmap.py returns.
use qwen3_8_flash_dgx_auto_r.Common.{
  ℕ, zero, suc, ◌+◌, ◌*◌, ◌≡◌, refl, subst, true, List, [], ◌∷◌, none, some, ◌==◌, All, get_elem?,
  lookup, set, ℕ_discrete, eq_refl, arith,
}
use qwen3_8_flash_dgx_auto_r.Ple.Shards.{
  Dtype, TensorName, shard, Meta, Header, Checked, good, fault, ShardEntry, Search, itemsize,
  dtype_code, same_dtype, add_shard, visit, visit_header, find_shards, nothing_found,
}
use qwen3_8_flash_dgx_auto_r.Ple.Shards.Mapped.{IsMapped, WasRead, WereRead, find_shards-AreMapped}

-- The entry is in the header of the file.
abbrev pub IsIn : List (Checked (Header × ℕ)) → ℕ → ℕ → TensorName × Meta → Type 0
IsIn files path data_start entry =
    (header : Header) × (k : ℕ) × (get_elem? files path ≡ some (good (header, data_start)))
    × (get_elem? header k ≡ some entry)

All-of_get :
    {A : Type 0} (P : A → Type 0) (xs : List A)
    → ((k : ℕ) (x : A) → get_elem? xs k ≡ some x → P x)
    → All P xs
All-of_get P [] h = tt
All-of_get P (x ∷ xs) h = (h zero x refl, All-of_get P xs (λ k y e. h (suc k) y e))

WereRead-of_get :
    (Read : ℕ → ℕ → TensorName × Meta → Type 0) (path : ℕ) (files : List (Checked (Header × ℕ)))
    → ((j : ℕ) (f : Checked (Header × ℕ)) → get_elem? files j ≡ some f → WasRead Read (path + j) f)
    → WereRead Read path files
WereRead-of_get Read path [] h = tt
WereRead-of_get Read path (f ∷ files) h = (
  subst (λ i. WasRead Read i f) (omega arith) (h zero f refl),
  WereRead-of_get Read (path + 1) files
      (λ j g e. subst (λ i. WasRead Read i g) (omega arith) (h (suc j) g e)),
)

IsIn-WasRead :
    (files : List (Checked (Header × ℕ))) (j : ℕ) (f : Checked (Header × ℕ))
    → get_elem? files j ≡ some f
    → WasRead (IsIn files) (0 + j) f
IsIn-WasRead files j (fault f) e = tt
IsIn-WasRead files j (good (header, data_start)) e =
    subst (λ i. All (IsIn files i data_start) header) (omega arith)
      (All-of_get (IsIn files j data_start) header (λ k x g. (header, k, e, g)))

-- When _find_shards returns, each shard that it lists stands in the header of the file that it
-- names, with the offset and the rows of that entry; the entry has the one dtype that is returned,
-- and is as long as its shape and the item size make it.
pub find_shards-IsMapped :
    (files : List (Checked (Header × ℕ))) (s : Search)
    → find_shards 0 files nothing_found ≡ good s
    → (n : ℕ) (e : ShardEntry) → lookup ℕ_discrete n s.shards ≡ some e
    → IsMapped (IsIn files) s n e
unfolding lookup
find_shards-IsMapped files s made =
    find_shards-AreMapped (IsIn files) 0 files nothing_found s
      (WereRead-of_get (IsIn files) 0 files (IsIn-WasRead files)) (λ n e h. cc) made

from_zero : (n : ℕ) → (n == (0 + n)) ≡ true
from_zero n = ground arith

-- A shard of `rows` rows of `cols`.
abbrev pub plain_meta : Dtype → ℕ → ℕ → ℕ → Meta
plain_meta d size rows cols = record {
  dtype = d;
  start = 0;
  stop = rows * cols * size;
  rows = rows;
  cols = cols;
}

-- The widths of two shards need not agree: whatever they are, a file with two shards whose sizes
-- fit their shapes is accepted, and the width that is returned is the second's alone.
pub find_shards-any_width :
    (d : Dtype) (size rows cols other_cols data_start : ℕ)
    → itemsize d ≡ some size
    → (s : Search) × (find_shards 0
          (good (
            (shard 0, plain_meta d size rows cols)
                ∷ (shard 1, plain_meta d size rows other_cols)
                ∷ [],
            data_start,
          )
            ∷ [])
          nothing_found
        ≡ good s)
      × (s.shard_cols ≡ other_cols)
      × (lookup ℕ_discrete 0 s.shards
          ≡ some (record { path = 0; offset = data_start + 0; rows = rows }))
unfolding find_shards visit_header visit add_shard same_dtype lookup set ℕ_discrete
find_shards-any_width d size rows cols other_cols data_start sized =
    let both : Search = record {
      shards =
          (0, record { path = 0; offset = data_start + 0; rows = rows })
          ∷ (1, record { path = 0; offset = data_start + 0; rows = rows })
          ∷ [];
      dtype_str = some d;
      scale_entry = none;
      shard_cols = other_cols;
    } in
    (
      both,
      rw
          (
            add_shard,
            sized,
            from_zero (rows * cols * size),
            eq_refl (dtype_code d),
            from_zero (rows * other_cols * size),
          )
          refl,
      refl,
      refl,
    )
