-- ===== src/Gptq.antt =====
-- The packed GPTQ layout: `quantize` of tools/quantize_mtp_experts_int4.py and
-- tools/quantize_lm_head_int8.py packs the values of a column into 32-bit words, and `dequant` and
-- _dv_gptq_rows of src/patch_mtp_draft_vocab.py take them apart. A column stands for the array, which
-- the code treats column by column; the sums are taken modulo 2 ^ 32, as uint32 has them.
mod Roundtrip
mod Examples
use qwen3_8_flash_dgx_auto_r.Common.{
  ℕ, zero, suc, ◌+◌, ◌-◌, ◌*◌, ◌/◌, ◌%◌, ◌^◌, List, [], ◌∷◌, ◌++◌, take, drop, map,
}

-- `q << shift`, in uint32.
pub shift_left : ℕ → ℕ → ℕ
shift_left q shift = (q * 2 ^ shift) % 2 ^ 32

-- `(q << shifts).sum(dtype=np.uint32)`, where the next shift is `shift`.
pub pack_word : ℕ → ℕ → List ℕ → ℕ
unfolding shift_left
pack_word bits shift [] = 0
pack_word bits shift (q ∷ qs) = (shift_left q shift + pack_word bits (shift + bits) qs) % 2 ^ 32

-- `(q >> (i * bits)) & mask` with `mask = (1 << bits) - 1`.
pub nibble : ℕ → ℕ → ℕ → ℕ
nibble bits word i = (word / 2 ^ (i * bits)) % 2 ^ bits

-- The fields of a word, for `i in range(pack)`, from `i` on.
pub unpack_from : ℕ → ℕ → ℕ → ℕ → List ℕ
unfolding nibble
unpack_from bits word i zero = []
unpack_from bits word i (suc n) = nibble bits word i ∷ unpack_from bits word (i + 1) n

-- `q.reshape(in // PACK, PACK)`, then a word per row; `words` is `in // PACK`.
pub pack_column : ℕ → ℕ → ℕ → List ℕ → List ℕ
unfolding pack_word
pack_column bits pack zero qs = []
pack_column bits pack (suc words) qs =
    pack_word bits 0 (take pack qs) ∷ pack_column bits pack words (drop pack qs)

-- `np.stack([...], axis=1).reshape(in, ...)`
pub unpack_column : ℕ → ℕ → List ℕ → List ℕ
unfolding unpack_from
unpack_column bits pack [] = []
unpack_column bits pack (word ∷ words) =
    unpack_from bits word 0 pack ++ unpack_column bits pack words
