-- ===== src/Lib.antt =====
-- Verification of the serving patches in src/ that make a large hybrid model fit one machine.
--
-- Pin models the block pool's half of src/patch_never_evict.py: the queue of blocks that is kept
-- from eviction, beside vLLM's free queue. Pin/Invariant says what a valid pool is, Pin/Freeing
-- covers free_blocks, Pin/Loan covers touch, Pin/Rehome and Pin/Replace cover set_pinned_hashes
-- and the start of reset_prefix_cache. Blocks are named by their block_id; Pin/Queue is the
-- interface of vLLM's FreeKVCacheBlockQueue, with a list as an implementation.
--
-- Scheduler models the other half of that file: _contains_subseq, _arm_never_evict_pin and what
-- add_request and reset_prefix_cache do for the pin. It calls Pin.set_pinned_hashes. The search loop
-- runs on fuel, one more than the length of the prompt, and each round consumes a token.
--
-- Ple/Table models MmapPleTable.gather and _gather of src/vllm_ple_mmap.py. A shard is the list of
-- its rows. numpy's unique is an interface; Ple/Table/Sorting implements it. The chunk loop runs on
-- fuel, the length of the array, which is enough as each round advances by a positive chunk.
--
-- Ple/Setup models the checks of _setup_table in the same file and the table that
-- MmapPleTable.__init__ builds, with np.memmap as a parameter; Ple/Setup/Serve joins them with gather.
--
-- Ple/Prefetch models PrefetchingMmapTable: the model thread and the worker as steps in any order.
-- Ple/Prefetch/Promise says what a lookup may get, Worker, Submit and Refine set the steps beside it,
-- and Lookup has _lookup_impl; the gather of the wrapped table is a parameter there.
--
-- Ple/Shards models the search for the shards of a table in the files of a checkpoint, with the bytes
-- of a file, and json.loads and the list of the files as parameters. Ple/Prewarm is the loop of
-- prewarm over the files of the shards; its fuel is the length of the shard, as each round but the
-- last reads a byte.
--
-- Telemetry models the counters: _stats_add and _stats_log of src/vllm_ple_mmap.py and their reader
-- src/vllm_custom_metrics.py, as steps on one state; the refresher thread has steps of its own.
--
-- Mamba models src/mamba_utils_guarded.py. Mamba/Memcpy is the tiled memcpy, Mamba/Copy the guarded
-- copy of a state block, and Mamba/Kernels the three fused kernels that decide what to copy, for one
-- program of their grid; Mamba/Layout is the metadata that _populate_metadata records of the state
-- tensors, and Mamba/Launch runs the kernels over a whole grid and holds the guard telemetry, which
-- it passes on to Telemetry. Mamba/Columns chooses the columns on the host, Mamba/Batch collects and
-- makes the copies of the scalar path, Mamba/Step stages the inputs of the postprocessing and reads
-- its counts back, and Mamba/Groups finds the Mamba groups of a cache configuration. A copy is its
-- byte ranges. The loop of the tiled memcpy runs on fuel, the number of units, and that of
-- batch_memcpy_kernel on the number of bytes, which is enough as each round advances by a positive
-- block. Addresses and counters are numbers without a width.
--
-- Gptq models the packed layout of tools/quantize_mtp_experts_int4.py, which
-- tools/quantize_lm_head_int8.py and src/patch_mtp_draft_vocab.py share.
--
-- Repack and StripIndex model tools/quantize_lm_head_int8.py and tools/strip_ngram_index.py as lists
-- of file operations; an interrupted run is a prefix of its list.
--
-- Fp8Convert does the same for tools/fp8_convert.py, whose quantiser block_quant is a parameter.
-- Fp8Convert/Conversion says what a converted shard holds, Kept what an interrupted run may have done to a shard, Turn and Resume carry it
-- through the runs, Finish is a run to the end, and Stuck a run that leaves a shard without a name.
--
-- ExpertTree models link_tree and the writes of main of tools/quantize_mtp_experts_int4.py over names
-- and inodes; whether a link can be made, and st_nlink, are parameters. ExpertTree/Linked has the loop
-- over the source, Parted the loop over the regenerated names, Writes the files that main writes.
--
-- Fp8Hybrid models the rules of src/vllm_fp8_hybrid.py that find the FP8 layers in a checkpoint and
-- dispatch them, on names as lists of code points. DraftVocab models the ids that tools/build_draft_vocab.py
-- keeps, and their choice, the slice of the head and the scatter of the logits in
-- src/patch_mtp_draft_vocab.py; the loop over the chunks of the head runs on fuel, the number of ids,
-- which is enough as each round takes a positive chunk; a selection with no id raises. StepProfile models the captures of
-- src/patch_step_profile.py and the traces that they leave.
--
-- Not modelled: what torch, numpy, safetensors and vLLM do inside (parameters where the code relies
-- on it), the allocation of tensors, the patching of vLLM classes, the tokenizer and the corpus of the
-- draft vocabulary, the exact top-k of src/patch_qsa_exact_topk.py, log messages, shell scripts and
-- benchmarks. Float arguments are abstract, with the rounding that the code applies as a parameter.
pub mod Common
pub mod Pin
pub mod Scheduler
pub mod Ple
pub mod Repack
pub mod StripIndex
pub mod Fp8Convert
pub mod DraftVocab
pub mod ExpertTree
pub mod StepProfile
pub mod Fp8Hybrid
pub mod Gptq
pub mod Telemetry
pub mod Mamba
