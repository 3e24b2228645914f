-- ===== src/Cache.antt =====
-- src/tryops/semantic_cache.py: the entries of the semantic cache.
pub mod Entries
pub mod Retention
mod Tests
