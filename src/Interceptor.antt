-- ===== src/Interceptor.antt =====
-- The dispatch side: src/interceptor.cc, and the parts of src/utils.cc that it uses.
pub mod Names
pub mod KernArgs
pub mod Segments
pub mod Dispatches
pub mod Cache
pub mod Packets
pub mod Signals
pub mod Pool
pub mod Completions
pub mod Returns
pub mod Runner
pub mod Exclusion
pub mod Resolution
pub mod Described
pub mod Loading
pub mod Entries
pub mod Filled
pub mod Watcher
pub mod Watched
pub mod Arrivals
pub mod Lifetime
pub mod Lived
pub mod Discovery
pub mod Startup
pub mod Allowed
pub mod Waits
pub mod Losses
