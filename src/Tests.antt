-- ===== src/Tests.antt =====
-- The theorems at concrete inputs, and runs of the definitions.
mod Passes
mod Watching
mod Memory
mod Interception
mod Texts
mod Blocks
mod Runtime
mod Messages
mod Printing
