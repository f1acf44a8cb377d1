-- ===== src/Tests.antt =====
-- The theorems at concrete inputs, and runs of the functions on small inputs.
pub mod Sizes
pub mod Links
pub mod Regions
pub mod Bins
pub mod Chunks
pub mod Blocks
pub mod Worlds
pub mod Books
pub mod Kernels
pub mod Texts
pub mod Jumps
