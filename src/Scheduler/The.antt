-- ===== src/Scheduler/The.antt =====
-- The THE protocol between a worker and the thieves of its deque: __cilkrts_detach and
-- __cilkrts_undo_detach of batched-piper/runtime/cilk-abi.c, and of scheduler.c the functions on the
-- exception pointer, the steal and __cilkrts_c_THE_exception_check.
pub mod Contents
pub mod Invariant
pub mod Worker
pub mod Safe
pub mod Taken
pub mod Alone
use pracer.Base.{
  ℕ, zero, suc, ◌+◌, ◌-◌, ◌<◌, ◌≡◌, Bool, true, false, ◌&&◌, not, ltb, ◌==◌, if◌then◌else◌, List,
  [], ◌∷◌,
}

-- The exception pointer, or EXC_INFINITY.
pub data Exc : Type 0 where
  pointer : ℕ → Exc
  infinity : Exc

-- Pointers into the worker's queue are indices of `ltq`.
pub record Deque : Type 0 where
  pub head : ℕ
  pub tail : ℕ
  pub exc : Exc
  pub protected_tail : ℕ
  pub ltq : ℕ → ℕ

unfoldable pub increment_E : Deque → Deque
increment_E d = record d {
  exc = elim d.exc [ pointer tmp ↦ pointer (tmp + 1) | infinity ↦ infinity ];
}

unfoldable pub decrement_E : Deque → Deque
decrement_E d = record d {
  exc = elim d.exc [ pointer tmp ↦ pointer (tmp - 1) | infinity ↦ infinity ];
}

unfoldable pub reset_the_exception : Deque → Deque
reset_the_exception d = record d { exc = pointer d.head }

unfoldable pub can_steal_from : Deque → Bool
can_steal_from d = ltb d.head d.tail && ltb d.head d.protected_tail

-- The protocol of a thief, with nobody else at work.
unfoldable pub dekker_protocol : Deque → Bool × Deque
unfolding increment_E can_steal_from decrement_E
dekker_protocol d =
    let d' = increment_E d in if can_steal_from d' then (true, d') else (false, decrement_E d')

-- Whether a pointer is below the exception pointer.
abbrev pub below_exc : ℕ → Exc → Bool
below_exc t (pointer e) = ltb t e
below_exc t infinity = true

-- The part of the check that holds the worker's lock: whether the frame is stolen, and the deque.
unfoldable pub the_exception_check : Deque → Bool × Deque
unfolding reset_the_exception
the_exception_check d =
    let d' = reset_the_exception d in
    let stolen_p = not (ltb d'.head (d'.tail + 1)) in
    (stolen_p, if stolen_p then record d' { tail = d'.tail + 1 } else d')

-- Where the worker stands: in its code; in detach, with the frame stored; in undo_detach, with the
-- tail decremented; behind it, with the exception raised; in the check, with its lock; and where
-- its parent is stolen.
pub data OwnerPc : Type 0 where
  running orphaned : OwnerPc
  stored undone raised checking : (t : ℕ) → OwnerPc

-- Where the thief that has the worker's lock stands, and `outside` where there is none: before
-- increment_E, before can_steal_from, behind it with success or failure, and in detach_for_steal
-- with the head moved on.
pub data ThiefPc : Type 0 where
  outside locked incremented stealing failing : ThiefPc
  detached : (h : ℕ) → ThiefPc

pub data Holder : Type 0 where
  free by_owner by_thief : Holder

-- The frames are numbered in the order in which they are detached: `next` is the number of the
-- next. `popped` and `stolen` have those that the worker and the thieves have taken.
pub record System : Type 0 where
  pub deque : Deque
  pub lock : Holder
  pub owner : OwnerPc
  pub thief : ThiefPc
  pub next : ℕ
  pub popped : List ℕ
  pub stolen : List ℕ

-- The store of the frame in detach.
unfoldable pub store_frame : System → System
store_frame s =
    let t = s.deque.tail in
    let d = s.deque in
    record s {
      deque = record d { ltq = λ i. if i == t then s.next else d.ltq i };
      owner = stored t;
    }

-- The decrement of the tail in undo_detach.
unfoldable pub decrement_tail : System → System
decrement_tail s =
    let t = s.deque.tail - 1 in
    let d = s.deque in record s { deque = record d { tail = t }; owner = undone t }

abbrev pub keep_frame : (t : ℕ) → System → System
keep_frame t s = record s { owner = running; popped = s.deque.ltq t ∷ s.popped }

-- The worker's next access in a call.
unfoldable pub advance_owner : OwnerPc → System → System
unfolding the_exception_check
advance_owner running s = s
advance_owner orphaned s = s
advance_owner (stored t) s =
    let d = s.deque in
    record s { deque = record d { tail = t + 1 }; owner = running; next = suc s.next }
advance_owner (undone t) s =
    if below_exc t s.deque.exc then record s { owner = raised t } else keep_frame t s
advance_owner (raised t) s = elim s.lock [
  | free ↦ record s { lock = by_owner; owner = checking t }
  | by_owner ↦ s
  | by_thief ↦ s
]
advance_owner (checking t) s =
    let (stolen_p, d) = the_exception_check s.deque in
    let s' = record s { deque = d; lock = free } in
    if stolen_p then record s' { owner = orphaned } else keep_frame t s'

-- The thief's next access.
unfoldable pub advance_thief : ThiefPc → System → System
unfolding increment_E decrement_E can_steal_from
advance_thief outside s = s
advance_thief locked s = record s { deque = increment_E s.deque; thief = incremented }
advance_thief incremented s = record s {
  thief = if can_steal_from s.deque then stealing else failing;
}
advance_thief failing s = record s { deque = decrement_E s.deque; thief = outside; lock = free }
advance_thief stealing s =
    let d = s.deque in record s { deque = record d { head = d.head + 1 }; thief = detached d.head }
advance_thief (detached h) s = record s {
  stolen = s.deque.ltq h ∷ s.stolen;
  thief = outside;
  lock = free;
}

-- A thief may give up at once, where the worker is of another team or has no frame, and may abort
-- its steal in a replay of a log. A worker returns from no more frames than it has detached.
pub data Step (s : System) : System → Type 0 where
  detach : s.owner ≡ running → Step s (store_frame s)
  undo_detach : s.owner ≡ running → 0 < s.deque.tail → Step s (decrement_tail s)
  owner_runs : Step s (advance_owner s.owner s)
  worker_trylock_other :
      s.thief ≡ outside → s.lock ≡ free → Step s (record s { thief = locked; lock = by_thief })
  thief_runs : Step s (advance_thief s.thief s)
  abort : s.thief ≡ stealing → Step s (record s { thief = failing })
  give_up : s.thief ≡ locked → Step s (record s { thief = outside; lock = free })

abbrev pub start : (protected_tail : ℕ) → System
start protected_tail = record {
  deque = record {
    head = 0;
    tail = 0;
    exc = pointer 0;
    protected_tail = protected_tail;
    ltq = λ _. 0;
  };
  lock = free;
  owner = running;
  thief = outside;
  next = 0;
  popped = [];
  stolen = [];
}

pub data Reach (protected_tail : ℕ) : System → Type 0 where
  begin : Reach protected_tail (start protected_tail)
  later : {s t : System} → Reach protected_tail s → Step s t → Reach protected_tail t
