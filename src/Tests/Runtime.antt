-- ===== src/Tests/Runtime.antt =====
-- Small caches of stacks, a full frame, two batch records and an idle worker.
use pracer.Base.{ℕ, ◌+◌, ◌≡◌, refl, [], ◌∷◌, none, some, arith, ◌==◌, if◌then◌else◌}
use pracer.Mutex.Worker.{Mutex}
use pracer.Stacks.{Caches, push}
use pracer.Stacks.Count.{copies, Bounded}
use pracer.Stacks.Moves.{push-copies}
use pracer.FullFrame.{FullFrame, magic_0, magic_1, ff_pipe_suspended_iter, ff_pipe_iter}
use pracer.Batcher.{
  BatchRecord, Batch, BatchGlobal, Deque, Worker, core, item_waiting, switch_to_core_deque,
  switch_to_batch_deque,
}
use pracer.Batcher.Switch.{switch_to_batch_deque-switch_to_core_deque}

abbrev caches : Caches
caches = record {
  loc = record { size = 2; stacks = 20 ∷ 10 ∷ [] };
  glob = record { size = 1; stacks = [] };
  freed = [];
}

caches-Bounded : Bounded caches
caches-Bounded = (omega arith, omega arith)

push-copies_example :
    Bounded (push 30 caches)
    × ((x : ℕ) → copies x (push 30 caches) ≡ (if x == 30 then 1 else 0) + copies x caches)
push-copies_example = push-copies 30 caches caches-Bounded

abbrev frame : FullFrame
frame = record {
  full_frame_magic_0 = magic_0;
  lock = record { lock = 1; owner = 7 };
  join_counter = 1;
  is_call_child = 0;
  frame_type = ff_pipe_iter;
  pipe_iter_root = 0;
  resume_flags = ff_pipe_suspended_iter;
  simulated_stolen = 0;
  parent = 4096;
  left_sibling = 0;
  right_sibling = 0;
  rightmost_child = 0;
  call_stack = 8192;
  children_reducer_map = 0;
  right_reducer_map = 64;
  pending_exception = 0;
  child_pending_exception = 0;
  right_pending_exception = 0;
  sync_sp = 1000;
  frame_size = 0;
  fiber_self = 0;
  fiber_child = 0;
  sync_master = 0;
  full_frame_magic_1 = magic_1;
}

abbrev record_of : (operation d : ℕ) → BatchRecord
record_of operation d = record {
  operation = operation;
  ds = 1;
  data_size = 4;
  data_of = d;
  status = item_waiting;
}

abbrev pending : Batch
pending = record { operation = 100; ds = 1; data_size = 4; num_ops = 0; work_array = []; id = 3 }

abbrev owned : Mutex
owned = record { lock = 1; owner = 7 }

abbrev deque_at : ℕ → Deque
deque_at a = record { head = a; tail = a; exc = a; ltq = a; protected_tail = a + 64; frame_ff = 0 }

abbrev idle_worker : Worker
idle_worker = record {
  core_deque = deque_at 1000;
  batch_deque = deque_at 2000;
  to_tail = core;
  to_head = core;
  to_exc = core;
  to_protected_tail = core;
  to_ltq = core;
  to_frame_ff = core;
  fiber_self = 9;
  batch_id = none;
}

switch_to_batch_deque-switch_to_core_deque_example :
    (v : Worker) × (u : Worker) × (switch_to_core_deque idle_worker ≡ some v)
    × (switch_to_batch_deque 64 v ≡ some (9, u))
    × (switch_to_core_deque u ≡ some v)
    × (v.core_deque ≡ deque_at 1000)
switch_to_batch_deque-switch_to_core_deque_example =
    switch_to_batch_deque-switch_to_core_deque 64 idle_worker refl refl

abbrev global : BatchGlobal
global = record { pending_batch = pending; batch_lock = owned; batch_records = [] }
