-- ===== src/Hierarchy.antt =====
-- src/sched/hierarchy: the hierarchical scheduler.
pub mod Buffer
pub mod Taskqueue
pub mod Priority
pub mod Task
pub mod Static
pub mod Master
pub mod Worker
pub mod Stream
