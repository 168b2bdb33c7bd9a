-- ===== src/Batcher/Switch.antt =====
-- The changes between the deques, and the end of a batch.
use pracer.Base.{ℕ, ◌+◌, ◌≤◌, ◌≡◌, refl, true, false, none, some, ◌==◌, arith, leb, eqb_refl}
use pracer.Batcher.{
  Worker, core, batch, batch_deque_ready, switch_to_batch_deque, switch_to_core_deque, BatchGlobal,
  terminate_batch, keeps_executing,
}

abbrev at_core : Worker → Worker
at_core w = record w {
  batch_deque = record (w.batch_deque) {
    head = w.batch_deque.ltq;
    tail = w.batch_deque.ltq;
    exc = w.batch_deque.ltq;
  };
  to_tail = core;
  to_head = core;
  to_exc = core;
  to_protected_tail = core;
  to_ltq = core;
  to_frame_ff = core;
  batch_id = none;
}

abbrev at_batch : Worker → Worker
at_batch w = record w {
  to_tail = batch;
  to_head = batch;
  to_exc = batch;
  to_protected_tail = batch;
  to_ltq = batch;
  to_frame_ff = batch;
}

-- Whatever a batch has left in the batch deque, as long as no frame is left there: after
-- switch_to_core_deque the next switch_to_batch_deque passes its assertions, and switching back
-- gives the same worker. The condition on the deque's end is the only one of the assertions that
-- switch_to_core_deque does not restore.
pub switch_to_batch_deque-switch_to_core_deque :
    (slots : ℕ) (w : Worker)
    → w.batch_deque.frame_ff ≡ 0
    → w.batch_deque.protected_tail ≡ w.batch_deque.ltq + slots
    → (v : Worker) × (u : Worker) × (switch_to_core_deque w ≡ some v)
      × (switch_to_batch_deque slots v ≡ some (w.fiber_self, u))
      × (switch_to_core_deque u ≡ some v)
      × (v.core_deque ≡ w.core_deque)
unfolding switch_to_core_deque switch_to_batch_deque batch_deque_ready
switch_to_batch_deque-switch_to_core_deque slots w idle end =
    let no_frame : (w.batch_deque.frame_ff == 0) ≡ true = ground arith in
    let ends : (w.batch_deque.protected_tail == w.batch_deque.ltq + slots) ≡ true = ground arith in
    (
      at_core w,
      at_batch (at_core w),
      rw no_frame refl,
      rw (eqb_refl w.batch_deque.ltq, ends, no_frame) refl,
      rw no_frame refl,
      refl,
    )

-- After terminate_batch by a worker without a batch frame, no worker goes on executing for the
-- batch that has ended or an earlier one, not even when another worker owns the batch lock
-- already.
pub terminate_batch-releases :
    (g : BatchGlobal) (batch_id w : ℕ)
    → batch_id ≤ g.pending_batch.id
    → (g' : BatchGlobal) × (terminate_batch 0 g ≡ some g')
      × (keeps_executing batch_id g' ≡ false)
      × (keeps_executing batch_id (record g' { batch_lock = record { lock = 1; owner = w } })
          ≡ false)
unfolding terminate_batch keeps_executing
terminate_batch-releases g batch_id w le =
    let past : leb (g.pending_batch.id + 1) batch_id ≡ false = ground arith in
    (_, refl, rw past refl, rw past refl)
