-- ===== src/Ple/Shards.antt =====
-- The search for the shards of a table in the files of a checkpoint: parse_safetensors_header,
-- _find_shards, _itemsize and _read_scale of src/vllm_ple_mmap.py. json.loads is a parameter, and
-- what the two patterns make of a tensor's name is part of the name. A file is its bytes; that it is
-- longer than its header says is not asked of it. An exception is a fault.
mod Mapped
mod Found
mod Examples
use qwen3_8_flash_dgx_auto_r.Common.{
  ℕ, zero, suc, ◌+◌, ◌-◌, ◌*◌, ◌^◌, Bool, true, false, not, List, [], ◌∷◌, Option, none, some, ltb,
  ◌==◌, if◌then◌else◌, length, take, drop, set, ℕ_discrete,
}

pub data Dtype : Type 0 where
  f8_e4m3 f8_e5m2 u8 i8 bf16 f16 f32 other_dtype : Dtype

-- A name that the pattern of the shards or of the scale finds, or neither.
pub data TensorName : Type 0 where
  shard : ℕ → TensorName
  weight_scale metadata other_name : TensorName

-- `data_offsets`, `shape` and `dtype`.
pub record Meta : Type 0 where
  pub dtype : Dtype
  pub start : ℕ
  pub stop : ℕ
  pub rows : ℕ
  pub cols : ℕ

abbrev pub Header : Type 0
Header = List (TensorName × Meta)

pub data ShardFault : Type 0 where
  short_file bad_json mixed_dtypes unsupported_dtype size_mismatch short_scale : ShardFault

pub data Checked {ℓ} (A : Type ℓ) : Type ℓ where
  good : A → Checked A
  fault : ShardFault → Checked A

-- A little-endian number.
pub little_endian : List ℕ → ℕ
little_endian [] = 0
little_endian (b ∷ bs) = b + 256 * little_endian bs

-- `header.pop("__metadata__", None)`
pub pop_metadata : Header → Header
pop_metadata [] = []
pop_metadata ((metadata, m) ∷ header) = pop_metadata header
pop_metadata ((shard n, m) ∷ header) = (shard n, m) ∷ pop_metadata header
pop_metadata ((weight_scale, m) ∷ header) = (weight_scale, m) ∷ pop_metadata header
pop_metadata ((other_name, m) ∷ header) = (other_name, m) ∷ pop_metadata header

module _ (loads : List ℕ → Option Header) where
  abbrev loaded : ℕ → Option Header → Checked (Header × ℕ)
  loaded header_len none = fault bad_json
  loaded header_len (some header) = good (pop_metadata header, 8 + header_len)

  pub parse_safetensors_header : List ℕ → Checked (Header × ℕ)
  unfolding little_endian pop_metadata
  parse_safetensors_header bytes =
      let header_len = little_endian (take 8 bytes) in
      if ltb (length bytes) 8
      then fault short_file
      else loaded header_len (loads (take header_len (drop 8 bytes)))

pub itemsize : Dtype → Option ℕ
itemsize f8_e4m3 = some 1
itemsize f8_e5m2 = some 1
itemsize u8 = some 1
itemsize i8 = some 1
itemsize bf16 = some 2
itemsize f16 = some 2
itemsize f32 = some 4
itemsize other_dtype = none

pub dtype_code : Dtype → ℕ
dtype_code f8_e4m3 = 0
dtype_code f8_e5m2 = 1
dtype_code u8 = 2
dtype_code i8 = 3
dtype_code bf16 = 4
dtype_code f16 = 5
dtype_code f32 = 6
dtype_code other_dtype = 7

-- The test `meta["dtype"] != dtype_str`; an unknown dtype is refused in any case.
pub same_dtype : Dtype → Dtype → Bool
unfolding dtype_code
same_dtype d e = dtype_code d == dtype_code e

-- `(path, data_start + start, rows)`; a path is the file's place in `files`.
pub record ShardEntry : Type 0 where
  pub path : ℕ
  pub offset : ℕ
  pub rows : ℕ

pub record ScaleEntry : Type 0 where
  pub path : ℕ
  pub offset : ℕ
  pub nbytes : ℕ
  pub dtype : Dtype

-- The variables of the loop; `shard_cols` is bound with the first shard.
pub record Search : Type 0 where
  pub shards : List (ℕ × ShardEntry)
  pub dtype_str : Option Dtype
  pub scale_entry : Option ScaleEntry
  pub shard_cols : ℕ

-- The two ways that a dtype passes.
abbrev pub agrees : Option Dtype → Dtype → Bool
agrees none d = true
agrees (some e) d = same_dtype d e

-- The checks of a shard, from its item size on; `end - start` is compared with no subtraction.
add_shard : ℕ → ℕ → ℕ → Meta → Option ℕ → Search → Checked Search
unfolding set
add_shard path data_start n m none s = fault unsupported_dtype
add_shard path data_start n m (some size) s =
    if not (m.stop == (m.start + m.rows * m.cols * size))
    then fault size_mismatch
    else good (record s {
      shards =
          set ℕ_discrete n (record { path = path; offset = data_start + m.start; rows = m.rows })
            s.shards;
      dtype_str = some m.dtype;
      shard_cols = m.cols;
    })

-- The body of the loop over a header.
pub visit : ℕ → ℕ → TensorName × Meta → Search → Checked Search
unfolding add_shard itemsize same_dtype
visit path data_start (shard n, m) s =
    if agrees s.dtype_str m.dtype
    then add_shard path data_start n m (itemsize m.dtype) s
    else fault mixed_dtypes
visit path data_start (weight_scale, m) s = good (record s {
  scale_entry = some (record {
    path = path;
    offset = data_start + m.start;
    nbytes = m.stop - m.start;
    dtype = m.dtype;
  });
})
visit path data_start (metadata, m) s = good s
visit path data_start (other_name, m) s = good s

abbrev pub then_search : {A : Type 0} → Checked A → (A → Checked Search) → Checked Search
then_search (fault f) next = fault f
then_search (good a) next = next a

pub visit_header : ℕ → ℕ → Header → Search → Checked Search
unfolding visit
visit_header path data_start [] s = good s
visit_header path data_start (e ∷ header) s =
    then_search (visit path data_start e s) (visit_header path data_start header)

-- `for path in files`, with what parse_safetensors_header gives for each, from `path` on.
pub find_shards : ℕ → List (Checked (Header × ℕ)) → Search → Checked Search
unfolding visit_header
find_shards path [] s = good s
find_shards path (f ∷ files) s =
    then_search (then_search f (λ h. visit_header path h.1 h.0 s)) (find_shards (path + 1) files)

-- Before the loop; `shard_cols` has no value yet.
abbrev pub nothing_found : Search
nothing_found = record { shards = []; dtype_str = none; scale_entry = none; shard_cols = 0 }

-- A number's bits as a float32, or a float16.
pub data Scale : Type 0 where
  float32_bits float16_bits : ℕ → Scale

abbrev needs : Dtype → Option ℕ
needs f32 = some 4
needs bf16 = some 2
needs f16 = some 2
needs d = none

abbrev decode : Dtype → List ℕ → Scale
decode f32 raw = float32_bits (little_endian (take 4 raw))
decode bf16 raw = float32_bits (little_endian (take 2 raw) * 2 ^ 16)
decode d raw = float16_bits (little_endian (take 2 raw))

abbrev checked_scale : ScaleEntry → Option ℕ → List ℕ → Checked Scale
checked_scale e none raw = fault unsupported_dtype
checked_scale e (some need) raw =
    if ltb e.nbytes need then fault short_scale else good (decode e.dtype raw)

-- _read_scale, on the bytes of the entry's file.
pub read_scale : ScaleEntry → List ℕ → Checked Scale
unfolding little_endian
read_scale e bytes = checked_scale e (needs e.dtype) (take e.nbytes (drop e.offset bytes))
