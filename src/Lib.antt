-- ===== src/Lib.antt =====
-- The pracer repository: a race detector for pipeline programs (rdtool) on a Cilk Plus runtime
-- that is extended with pipelines and with batched data structures (batched-piper). The
-- detector keeps the order of strands in an order-maintenance structure, whose relabelling
-- runs as a batch.
--
-- The parts and their files:
--
-- Om is the order-maintenance structure of rdtool/src/om, over a store of objects (Om/Store)
--   with an allocator that returns given addresses. Om/Label has the constants of om_common.h
--   and the label arithmetic of get_new_label. Om/Blist is blist.c, the lists at the bottom:
--   bl_insert, bl_precedes, bl_verify, bl_size, bl_destroy. Om/Chain says which nodes a list
--   in the store holds, and Om/View how the store looks around the objects that an operation
--   works on. Om/Split is blist_split.c, Om/Top is om.c and Om/Relabel is om_relabel.c.
--   Om/Tree says which tree the top nodes in the store form; Om/Order, Om/Insert and Om/Verify
--   are about the operations of om.c. A pointer is an address, 0 for NULL; a failed assertion,
--   an access through NULL, a shift that C leaves undefined, and a call of exit are outcomes
--   of a command. Spawned calls run in the order of the text, and one insertion runs at a
--   time.
-- FrameMalloc is batched-piper/runtime/frame_malloc.c, the allocator of frames of a worker:
--   FrameMalloc has the state and the moves between the pool and the lists, FrameMalloc/Ops
--   the entry points. Counters of type size_t are taken modulo 2 ^ 64.
-- Mutex is worker_mutex.c and spin_mutex.c of batched-piper/runtime. Mutex/Worker and
--   Mutex/Spin make one access of the shared lock at a time, for any number of workers in any
--   order.
-- Stacks is stacks.c, the caches of free stacks, for one worker. The build no longer names
--   this file.
-- SignalNode is signal_node.c: a worker that waits, and one that sends to it, in any order.
--   The system's semaphore is the counter that its documentation describes.
-- FullFrame is full_frame.c with the types of full_frame.h.
-- Batcher is the part of batcher.c that collects and ends a batch and that changes a worker's
--   deque.
-- Scheduler is the list of a full frame's children that scheduler.c keeps: double_link,
--   push_child and unlink_child. Scheduler/Random is the choice of a victim in random_steal,
--   with myrand and mysrand. Scheduler/The is the THE protocol on a worker's deque, one access
--   of the shared memory at a time and in one order, as the fences ask: __cilkrts_detach and
--   __cilkrts_undo_detach of batched-piper/runtime/cilk-abi.c, and of scheduler.c
--   increment_E, decrement_E, can_steal_from, dekker_protocol, the head's move in
--   detach_for_steal and the locked part of __cilkrts_c_THE_exception_check. The thieves of a
--   worker take its lock in turn, so that one place tells where the present one stands; a worker
--   whose parent is stolen ends.
-- Detector is the race detector's memory of accesses, in rdtool/src. Detector/Access has an
--   access and its race test, of mem_access.h, with the constants of the grains of memory;
--   Detector/Slot is what mem_access.cpp does at one grain; Detector/Shadow is shadow_mem.h
--   with clear_shadow_memory of shadow_stack.cpp; Detector/Memory has MemAccessList_t and
--   record_mem_helper of instrumentation.cpp. The answers of om_precedes are parameters, and
--   the theorems suppose that they follow the strands' positions in two orders. Accesses are
--   made one after the other. Where the code has a call of report_race, in comments now, the
--   model returns that a race is found. Detector/Slot/Order has the reference: which strands
--   are parallel, and which histories are racy; Detector/Memory/Bytes has the accesses to a
--   byte, by their addresses and sizes alone.
-- Pipeline is the detector's view of a pipeline. Pipeline/Items is rdtool/src/list.cpp, a list
--   in an array that grows; the rest is rdtool/include/piper_rd.h: Pipeline/Iterations the ring
--   of the last iterations, Pipeline/Left the search for the stage that a stage waits for,
--   and Pipeline/Strands createOrder, cilkStageFirst, cilkStageWait and cilkStage, which put the
--   strand of a stage into the two orders. Pipeline/Run has the runs of a pipeline, in which the
--   iterations that the throttle limit lets run call these in any order; Pipeline/Rows describes
--   the orders of such a run as rows of strands, over which Pipeline/Run/Tracked carries the
--   invariant. Pipeline/Run/Routes says what the paths of a pipeline are, by the numbers of the
--   stages and by which of them wait, and Pipeline/Run/Cuts when a run is Timely: a wait passes
--   only when the stages that the iteration before has yet to begin have greater numbers, which
--   is the runtime's promise. Pipeline/OmOrder is the interface that they use in place of
--   omrd_t; its laws are supposed, and Pipeline/OmOrder/Nodes is a list of nodes that fulfils
--   them.
-- ShadowStack is the shadow stack of spawns and syncs. ShadowStack/Stack is Stack_t of
--   rdtool/src/stack.h, ShadowStack/Spawn the nodes that shadow_stack.cpp gives to a spawned
--   child, to the continuation and to the sync, and ShadowStack/Callbacks AtomicStack_t and the
--   callbacks themselves, one at a time and outside batches.
-- Base has what the parts share, and Tests runs the theorems at concrete inputs.
--
-- Loops and recursions that no argument bounds take fuel. size_loop and verify_loop need
-- more fuel than the list has nodes; rebuild_recursive needs more than the height h of a
-- tree with at most 2 ^ h leaves; allocate_batch gets the batch size and one more, as each
-- round takes at least 64 bytes; and pop_frame gets 2, as the first round leaves a frame in
-- the list; clear_shadow_memory needs more than the number of blocks; copy_to_helper gets
-- the number of frames. The functions of Om/Split and of Om/Relabel besides
-- rebuild_recursive are executable, and run out of fuel as their loops do; what they do is
-- not stated here.
--
-- Not modelled: the rest of the scheduler, the fibers and the pipelines of batched-piper
-- (scheduler.c, cilk_fiber.cpp, piper_sched.cpp), its reducers, headers and system layer,
-- the watermarks of the detector's iterations, the locking and relabelling around om
-- (omrd.cpp), the callbacks of the instrumentation, and the printing functions. The calls of
-- cilk_batchify that change fibers are left out with them.
pub mod Base
pub mod Om
pub mod FrameMalloc
pub mod Mutex
pub mod Stacks
pub mod SignalNode
pub mod FullFrame
pub mod Batcher
pub mod Detector
pub mod Pipeline
pub mod ShadowStack
pub mod Scheduler
pub mod Tests
