-- ===== src/Batcher.antt =====
-- batched-piper/runtime/batcher.c and its types in include/cilk/batcher.h: how a batch is collected
-- and ended, and how a worker changes between its two deques. Pointers are addresses, 0 for NULL;
-- `none` is a failed assertion. Changes of fibers are not modelled.
pub mod Collect
pub mod Switch
use pracer.Base.{
  ℕ, zero, suc, ◌+◌, ◌≡◌, Bool, true, false, ◌&&◌, not, List, [], ◌∷◌, Option, none, some, ◌==◌,
  leb, ltb, length, if◌then◌else◌,
}
use pracer.Mutex.Worker.{Mutex}

pub data Status : Type 0 where
  item_waiting item_in_progress item_done : Status

abbrev pub is_waiting : Status → Bool
is_waiting item_waiting = true
is_waiting _ = false

abbrev pub is_in_progress : Status → Bool
is_in_progress item_in_progress = true
is_in_progress _ = false

-- A `batch_data_t` is an int, kept here as the number of its bits.
pub record BatchRecord : Type 0 where
  pub operation : ℕ
  pub ds : ℕ
  pub data_size : ℕ
  pub data_of : ℕ
  pub status : Status

-- `work_array` holds the ints from its start on.
pub record Batch : Type 0 where
  pub operation : ℕ
  pub ds : ℕ
  pub data_size : ℕ
  pub num_ops : ℕ
  pub work_array : List ℕ
  pub id : ℕ

abbrev pub sizeof_int : ℕ
sizeof_int = 4

abbrev pub selected : Batch → BatchRecord → Bool
selected pending r = is_waiting r.status && (pending.operation == r.operation)

-- The loop of collect_batch over the workers' records: the records after it, and the data written.
unfoldable pub collect_loop : Batch → List BatchRecord → Option (List BatchRecord × List ℕ)
collect_loop pending [] = some ([], [])
collect_loop pending (r ∷ rs) =
    let rest = collect_loop pending rs in
    if is_in_progress r.status
    then none
    else if not (selected pending r)
    then elim rest [ none ↦ none | some (rs', ds) ↦ some (r ∷ rs', ds) ]
    else if not (pending.data_size == sizeof_int)
    then none
    else elim rest [
      | none ↦ none
      | some (rs', ds) ↦ some (record r { status = item_in_progress } ∷ rs', r.data_of ∷ ds)
    ]

unfoldable pub record_at : List BatchRecord → ℕ → Option BatchRecord
record_at [] i = none
record_at (r ∷ rs) zero = some r
record_at (r ∷ rs) (suc i) = record_at rs i

-- Worker `self` at the address `w` collects: the number of operations, the records and the data.
unfoldable pub collect_batch :
    (w self : ℕ) → Mutex → Batch → List BatchRecord → Option (ℕ × List BatchRecord × List ℕ)
unfolding collect_loop record_at
collect_batch w self batch_lock pending records =
    if not (batch_lock.owner == w) then none else elim (record_at records self) [
      | none ↦ none
      | some mine ↦
          if not (is_waiting mine.status) then none else elim (collect_loop pending records) [
            | none ↦ none
            | some (records', ds) ↦
                if ltb 0 (length ds) then some (length ds, records', ds) else none
          ]
    ]

-- The global members that a batch uses.
pub record BatchGlobal : Type 0 where
  pub pending_batch : Batch
  pub batch_lock : Mutex
  pub batch_records : List BatchRecord

unfoldable pub create_batch : BatchRecord → BatchGlobal → Option BatchGlobal
create_batch r g =
    if r.data_size == sizeof_int
    then some (record g {
      pending_batch = record (g.pending_batch) {
        operation = r.operation;
        ds = r.ds;
        data_size = r.data_size;
      };
    })
    else none

unfoldable pub terminate_batch : (batch_frame_ff : ℕ) → BatchGlobal → Option BatchGlobal
terminate_batch batch_frame_ff g =
    if batch_frame_ff == 0
    then some (record g {
      pending_batch = record (g.pending_batch) { id = g.pending_batch.id + 1 };
      batch_lock = record { lock = 0; owner = 0 };
    })
    else none

-- The condition of the loop of execute_batch.
unfoldable pub keeps_executing : (batch_id : ℕ) → BatchGlobal → Bool
keeps_executing batch_id g = leb g.pending_batch.id batch_id && not (g.batch_lock.owner == 0)

unfoldable pub set_record : ℕ → BatchRecord → List BatchRecord → List BatchRecord
set_record i r [] = []
set_record zero r (x ∷ xs) = r ∷ xs
set_record (suc i) r (x ∷ xs) = x ∷ set_record i r xs

unfoldable pub insert_batch_record : (self func ds d data_size : ℕ) → BatchGlobal → BatchGlobal
unfolding set_record
insert_batch_record self func ds d data_size g = record g {
  batch_records =
      set_record self
        (record {
          operation = func;
          ds = ds;
          data_size = data_size;
          data_of = d;
          status = item_waiting;
        })
        g.batch_records;
}

-- One of a worker's two deques.
pub record Deque : Type 0 where
  pub head : ℕ
  pub tail : ℕ
  pub exc : ℕ
  pub ltq : ℕ
  pub protected_tail : ℕ
  pub frame_ff : ℕ

pub data Which : Type 0 where
  core batch : Which

-- The pointers of a worker to members of its deques say which deque they point into; `fiber_self` is
-- that member of the core frame, and `batch_id` is `none` for -1.
pub record Worker : Type 0 where
  pub core_deque : Deque
  pub batch_deque : Deque
  pub to_tail : Which
  pub to_head : Which
  pub to_exc : Which
  pub to_protected_tail : Which
  pub to_ltq : Which
  pub to_frame_ff : Which
  pub fiber_self : ℕ
  pub batch_id : Option ℕ

unfoldable pub batch_deque_ready : (slots : ℕ) → Deque → Bool
batch_deque_ready slots d =
    (d.tail == d.head)
    && (d.tail == d.exc)
    && (d.tail == d.ltq)
    && (d.protected_tail == d.ltq + slots)
    && (d.frame_ff == 0)

-- `slots` is `ltqsize` in bytes.
unfoldable pub switch_to_batch_deque : (slots : ℕ) → Worker → Option (ℕ × Worker)
unfolding batch_deque_ready
switch_to_batch_deque slots w =
    if batch_deque_ready slots w.batch_deque
    then some (
      w.fiber_self,
      record w {
        to_tail = batch;
        to_head = batch;
        to_exc = batch;
        to_protected_tail = batch;
        to_ltq = batch;
        to_frame_ff = batch;
      },
    )
    else none

unfoldable pub switch_to_core_deque : Worker → Option Worker
switch_to_core_deque w =
    let b = w.batch_deque in
    if b.frame_ff == 0
    then some (record w {
      batch_deque = record b { head = b.ltq; tail = b.ltq; exc = b.ltq };
      to_tail = core;
      to_head = core;
      to_exc = core;
      to_protected_tail = core;
      to_ltq = core;
      to_frame_ff = core;
      batch_id = none;
    })
    else none
