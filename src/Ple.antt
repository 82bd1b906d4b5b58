-- ===== src/Ple.antt =====
-- src/vllm_ple_mmap.py: the n-gram table served from disk.
pub mod Table
pub mod Setup
pub mod Prefetch
pub mod Shards
pub mod Prewarm
