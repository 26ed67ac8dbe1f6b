-- ===== src/Tests.antt =====
-- The theorems at concrete inputs, and runs of the modelled functions.
pub mod Samples
mod Conns
pub mod Procs
mod Rings
mod Paths
mod Cells
mod Keys
mod Screens
mod Filters
pub mod Dumps
mod Prompts
mod Turns
