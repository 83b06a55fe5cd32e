-- ===== src/Decen.antt =====
-- The decentralised scheduler, src/sched/decentralised: its buffer, streams, task queues.
pub mod Buffer
pub mod Stream
pub mod Taskqueue
pub mod Scheduler
pub mod Bisema
pub mod Worker
pub mod Task
pub mod Poll
