-- ===== src/Samples.antt =====
-- What the definitions are run on.
pub mod Variants
pub mod Services
pub mod Memory
pub mod Platforms
