-- ===== src/Tests.antt =====
-- The theorems at concrete inputs.
mod Memory
mod Formats
mod Checksums
mod PagedFiles
mod Heaps
mod Backends
mod Rebuilds
