-- ===== src/Stream.antt =====
-- kedis_python/stream.py: entry IDs, streams, consumer groups and their records.
pub mod Id
pub mod IdLaws
pub mod Sorted
pub mod SortedLaws
pub mod Group
pub mod Entries
pub mod Valid
pub mod Window
pub mod Trimmed
pub mod Replayed
pub mod Records
pub mod Coherent
pub mod Applied
pub mod Snapshot
