-- ===== src/Filters.antt =====
-- crates/rustyhdf5-format/src/filters.rs: the byte shuffle and the Fletcher-32 checksum that a
-- chunk goes through.
pub mod Shuffle
pub mod Fletcher
pub mod FletcherSums
pub mod FletcherInverse
pub mod Moves
pub mod ShuffleInverse
pub mod Pipeline
pub mod PipelineInverse
mod Tests
