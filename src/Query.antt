-- ===== src/Query.antt =====
-- query/: filters on rows and their use to skip chunks.
pub mod TimeFilter
pub mod ValueFilter
pub mod Predicate
