-- ===== src/Worker.antt =====
-- extract_service/worker.py: the queue, the extraction of the funds, the finalization of an
-- extract and the notification of its outcome.
pub mod Queue
pub mod Funds
pub mod Notify
pub mod Finalize
pub mod Process
pub mod Priorities
pub mod Accounts
pub mod Outcome
pub mod Marks
pub mod Races
pub mod Written
pub mod Publication
pub mod Loops
pub mod Terminal
