-- ===== src/Lib.antt =====
-- The LPEL runtime: tasks that communicate by streams, and the schedulers that run them.
--
-- The parts and the files that model them:
--   * Decen/Buffer models src/sched/decentralised/decen_buffer.c, the array behind a stream: `init`,
--     `top`, `pop`, `is_space`, `put` and `is_empty` are LpelBufferInit, LpelBufferTop and so on. A
--     pointer is a number and NULL is 0. `unsigned long` has 64 bits, and its wrap-around in the step
--     of an index is written out.
--   * Decen/Stream models src/sched/decentralised/decen_stream.c, a stream between one producer and
--     one consumer. LpelStreamWrite, LpelStreamTryWrite and LpelStreamRead are cut at their shared
--     accesses: `writer_step` and `reader_step` make the next action of the producer and of the
--     consumer, `Step` interleaves them, and `Reach` is a run. LpelTaskBlockStream and
--     LpelTaskUnblock of decen_task.c are a count of wakeups that a task has not yet acted on. The
--     semaphores are integers, as their bounds are small.
--   * Decen/Poll models LpelStreamPoll of the same file: `poll_step` makes the next action of a
--     consumer that waits on a set of streams, and the producers of all of them act as in
--     Decen/Stream. The set is the list of its descriptors in the order of the iterator, which
--     Streamset justifies.
--   * Streamset models src/streamset.c, circular lists of stream descriptors and iterators over
--     them. Memory is the function `next` from addresses to links.
--   * Decen/Taskqueue models src/sched/decentralised/decen_taskqueue.c, doubly linked queues of
--     tasks. The count is `unsigned int` and is taken modulo 2^32.
--   * Decen/Scheduler models src/sched/decentralised/decen_scheduler.c, the ready tasks of a worker
--     in a queue for each priority; it uses Decen/Taskqueue.
--   * Decen/Bisema models src/sched/decentralised/sema.c, binary semaphores: `wait_turn` is one turn
--     of the loop in LpelBiSemaWait, and `Step` lets the tasks take turns.
--   * Decen/Worker models src/sched/decentralised/decen_worker.c, the messages to a worker and the
--     tasks that it makes ready, over Decen/Scheduler, with LpelPickTargetWorker of task_migration.c.
--     `sent` records the messages to other workers; a task that leaves its worker is cut there.
--     Its child Loop has the start of the workers, the turns of their loops and their end, and Choice
--     the rest of src/sched/decentralised/task_migration.c.
--   * Decen/Task models src/sched/decentralised/decen_task.c, the life of a task, over Decen/Worker.
--     A task that leaves its worker is cut at the switch: `Outcome` tells what runs then.
--   * Mailbox models src/mailbox.c, the messages to a worker: a circular inbox and a list of free
--     nodes. Each section under a lock is one action; a receive that waits returns none.
--   * Timing models src/timing.c, times as seconds and nanoseconds.
--   * Monitoring models modimpl/monitoring.c, the monitoring objects of workers, tasks and streams,
--     with the list of the dirty streams of a task; a log file is the list of what was printed.
--   * Startup models src/lpel_main.c and src/lpel_hwloc.c: the check of a configuration, the topology
--     and the processors that threads are pinned to. A set of processors is a list.
--   * Hierarchy/Buffer models src/sched/hierarchy/hrc_buffer.c, the unbounded linked buffer of the
--     other scheduler. `malloc` is an argument, the address of the new entry.
--   * Hierarchy/Taskqueue models src/sched/hierarchy/hrc_taskqueue.c, a binary heap of tasks; the
--     difference of two priorities, which are `double`, is an argument. `Grow` is about its array, and
--     `Absent` about a task that is not in it.
--   * Hierarchy/Static models src/sched/hierarchy/static_taskqueue.c, the sorted list that takes the
--     place of the heap where priorities never change; the comparison is an argument.
--   * Hierarchy/Priority models src/sched/hierarchy/taskpriority.c, the priority functions and the
--     configuration; the operations on `double` are a record, an argument.
--   * Hierarchy/Task models src/sched/hierarchy/hrc_task.c and the fill level of hrc_stream.c: the
--     fields of tasks, descriptors and streams are functions of an address in the record `Tasks`. A
--     task that leaves its worker is cut there: `check_yield` ends at the call of
--     LpelWorkerTaskYield, and `after_yield` is the rest.
--   * Hierarchy/Master models the master of src/sched/hierarchy/hrc_worker_op.c, with
--     _USE_NEG_DEMAND_LIMIT_ and USE_HEAP_QUEUE set as in the headers: `handle` is a turn of
--     MasterLoop, and the messages to the workers are recorded in the field `sent`. It uses
--     Hierarchy/Taskqueue, Hierarchy/Task and Hierarchy/Priority.
--   * Hierarchy/Worker models the workers and wrappers of the same file and their lists of free
--     streams and descriptors. Hierarchy/Worker/Start models src/sched/hierarchy/hrc_worker_init.c,
--     the contexts at the start and what the end frees. Hierarchy/Worker/System puts the master, its
--     mailbox and the workers together: `Step` is an action of one of them, and a mailbox is a list,
--     oldest message first, which Mailbox justifies.
--   * Hierarchy/Stream models src/sched/hierarchy/hrc_stream.c over Hierarchy/Buffer, Hierarchy/Task
--     and Hierarchy/Worker: `read_enter` and `write_enter` end where a task blocks, `read_rest` and
--     `write_rest` go on from there, and `woken` records the calls of LpelTaskUnblock. Its child `Poll`
--     has LpelStreamPoll on the descriptors in the order of the iterator, which Streamset justifies.
--   * Base has what these share: `int32` (the wrap-around of an `int`, for the count of records, the
--     sum of fill levels and the sum of processors), `Run` (a result, a failed assertion, an access
--     out of range or through NULL, or the end of the fuel), lists, memory fields, chains of links and
--     integers.
--
-- An operation with a loop takes fuel: the search of LpelStreamsetRemove and the client's loop over
-- a set need no more steps than the set has descriptors, and the rounds over a task queue and over
-- the free nodes of a mailbox no more than they have tasks and nodes to meet. The loops of the heap
-- get one step more than the index or the count, which they pass in fewer, and the search for a free
-- descriptor one step more than the descriptors in use before it. The report of a task's dirty
-- streams has a turn for each of them, the static queue's insertion one more than it has tasks, and
-- the end of the workers one more than the longest list that it frees.
--
-- Not modelled: allocation that fails, the calls of monitoring callbacks in streams, tasks and
-- workers, deallocation where a part does not say otherwise, the calls of the system that pin a
-- thread, context switches, the operations of floating point, and the memory model of the processor,
-- since every shared access is one atomic action; the SPMD extension, the mutexes, and the sources
-- under archive.
pub mod Base
pub mod Decen
pub mod Hierarchy
pub mod Mailbox
pub mod Monitoring
pub mod Startup
pub mod Streamset
pub mod Timing
