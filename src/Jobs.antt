-- ===== src/Jobs.antt =====
-- src/tryops/jobs.py: the in-memory queue of asynchronous jobs. A method that mutates the queue
-- returns the new one. Each function is one block under the lock; Jobs/Pool.antt interleaves them.
pub mod Record
pub mod Listing
pub mod Submission
pub mod Pool
mod Tests
