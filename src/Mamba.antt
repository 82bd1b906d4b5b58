-- ===== src/Mamba.antt =====
-- The guarded copies of recurrent states in src/mamba_utils_guarded.py.
pub mod Memcpy
pub mod Copy
pub mod Columns
pub mod Kernels
pub mod Layout
pub mod Launch
pub mod Batch
pub mod Step
pub mod Groups
