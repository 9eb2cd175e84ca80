-- ===== src/Lifecycle.antt =====
-- The statuses of an extract across the parts of the service: the diagram of DESIGN.md and the
-- handlers, the worker and the sweeper that move along it.
pub mod Diagram
pub mod Board
pub mod Running
pub mod Working
pub mod Adding
pub mod Handlers
pub mod Sweeping
pub mod Reads
pub mod Refinement
