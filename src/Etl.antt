-- ===== src/Etl.antt =====
-- etl: the sort of entries on disk, from the buffer that collects them to the merge that loads them.
mod Examples
pub mod Sorting
pub mod Varint
pub mod Buffer
pub mod Provider
pub mod Merge
pub mod Collector
pub mod LoadNext
pub mod Transform
pub mod Entries
pub mod Buffers
