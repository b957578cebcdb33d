-- ===== src/MemoryAnalysis.antt =====
-- The memory analysis of src/memory_analysis_handler.cc: bank conflicts, cache lines, and the handler.
pub mod Conflict
pub mod CacheLines
pub mod Accesses
pub mod Dwarf
pub mod Handler
pub mod SourceLines
pub mod Reports
pub mod Printed
pub mod JsonReport
