-- ===== src/Runs.antt =====
-- The definitions run on concrete inputs, and the theorems at concrete inputs.
mod Wire
mod Filters
mod ObjectManager
mod Proxies
mod Registry
mod Native
mod Answers
mod Arguments
mod Generated
