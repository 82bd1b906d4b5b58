-- ===== src/Ple/Shards/Examples.antt =====
-- Tests of the search for shards in src/vllm_ple_mmap.py.
use qwen3_8_flash_dgx_auto_r.Common.{
  ℕ, ◌≡◌, refl, List, [], ◌∷◌, none, some, ◌==◌, if◌then◌else◌, lookup, set, ℕ_discrete, length,
}
use qwen3_8_flash_dgx_auto_r.Ple.Shards.{
  shard, metadata, other_name, Header, Checked, good, fault, ShardEntry, Search, itemsize,
  dtype_code, bf16, f16, u8, mixed_dtypes, short_scale, same_dtype, add_shard, visit, visit_header,
  find_shards, nothing_found, parse_safetensors_header, little_endian, pop_metadata, read_scale,
  float32_bits,
}
use qwen3_8_flash_dgx_auto_r.Ple.Shards.Mapped.{IsMapped}
use qwen3_8_flash_dgx_auto_r.Ple.Shards.Found.{IsIn, plain_meta, find_shards-IsMapped}

abbrev files : List (Checked (Header × ℕ))
files = good ((shard 2, plain_meta bf16 2 3 4) ∷ (other_name, plain_meta u8 1 9 9) ∷ [], 100) ∷ []

abbrev entry : ShardEntry
entry = record { path = 0; offset = 100; rows = 3 }

abbrev search : Search
search = record {
  shards = (2, entry) ∷ [];
  dtype_str = some bf16;
  scale_entry = none;
  shard_cols = 4;
}

searched : find_shards 0 files nothing_found ≡ good search
unfolding find_shards visit_header visit add_shard itemsize same_dtype dtype_code set
searched = refl

mixed_test : visit 0 100 (shard 3, plain_meta f16 2 3 4) search ≡ fault mixed_dtypes
unfolding visit same_dtype dtype_code
mixed_test = refl

-- Two bytes of header, which `loads` makes a shard and the metadata of.
parse_test :
    parse_safetensors_header
      (λ raw.
        if length raw == 2
        then some ((metadata, plain_meta u8 1 1 1) ∷ (shard 0, plain_meta u8 1 1 1) ∷ [])
        else none)
      (2 ∷ 0 ∷ 0 ∷ 0 ∷ 0 ∷ 0 ∷ 0 ∷ 0 ∷ 123 ∷ 125 ∷ 7 ∷ [])
    ≡ good ((shard 0, plain_meta u8 1 1 1) ∷ [], 10)
unfolding parse_safetensors_header little_endian pop_metadata
parse_test = refl

-- 1.0 as a bfloat16.
scale_test :
    read_scale (record { path = 0; offset = 1; nbytes = 2; dtype = bf16 }) (9 ∷ 128 ∷ 63 ∷ 9 ∷ [])
    ≡ good (float32_bits 1065353216)
unfolding read_scale little_endian
scale_test = refl

short_test :
    read_scale (record { path = 0; offset = 1; nbytes = 1; dtype = bf16 }) [] ≡ fault short_scale
unfolding read_scale
short_test = refl

at_two : lookup ℕ_discrete 2 search.shards ≡ some entry
unfolding lookup ℕ_discrete
at_two = refl

sized : itemsize bf16 ≡ some 2
unfolding itemsize
sized = refl

find_shards-IsMapped_example : IsMapped (IsIn files) search 2 entry
find_shards-IsMapped_example = find_shards-IsMapped files search searched 2 entry at_two
