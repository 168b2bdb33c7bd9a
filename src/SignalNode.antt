-- ===== src/SignalNode.antt =====
-- batched-piper/runtime/signal_node.c: a worker that waits on its node, and another worker that sends
-- it messages. The semaphore is the counter that sem_init, sem_post and sem_wait document.
pub mod Wakeup
use pracer.Base.{ℕ, zero, suc, ◌+◌, ◌≡◌, Bool, true, false, Option, none, some, ◌==◌, if◌then◌else◌}

pub record SignalNode : Type 0 where
  pub run : ℕ
  pub sem : ℕ

unfoldable pub signal_node_create : SignalNode
signal_node_create = record { run = 0; sem = 0 }

unfoldable pub signal_node_should_wait : SignalNode → Bool
signal_node_should_wait node = node.run == 0

-- Where the worker of the node stands in signal_node_wait: outside, before signal_node_should_wait,
-- or in wait_on_cilk_semaphore.
pub data Waiter : Type 0 where
  running checking blocked : Waiter

-- The sender is outside, between the write of 1 and the signal, or stopped by the assertion on a bad
-- message.
pub data Sender : Type 0 where
  quiet signalling bad_message : Sender

pub record System : Type 0 where
  pub node : SignalNode
  pub waiter : Waiter
  pub sender : Sender

-- The first part of signal_node_msg, up to the write of `run`.
unfoldable pub signal_node_msg : (msg : ℕ) → System → System
signal_node_msg zero s = record s { node = record (s.node) { run = 0 } }
signal_node_msg (suc zero) s = record s { node = record (s.node) { run = 1 }; sender = signalling }
signal_node_msg (suc (suc _)) s = record s { sender = bad_message }

-- Its second part.
unfoldable pub signal_cilk_semaphore : System → System
signal_cilk_semaphore s = record s {
  node = record (s.node) { sem = s.node.sem + 1 };
  sender = quiet;
}

-- The next access of the worker in signal_node_wait; `none` where it sleeps on the semaphore.
unfoldable pub signal_node_wait : System → Option System
unfolding signal_node_should_wait
signal_node_wait s = elim (s.waiter) [
  | running ↦ none
  | checking ↦
      some (record s { waiter = if signal_node_should_wait s.node then blocked else running })
  | blocked ↦ elim (s.node.sem) [
    | zero ↦ none
    | suc n ↦ some (record s { node = record (s.node) { sem = n }; waiter = checking })
  ]
]

pub data Step (s : System) : System → Type 0 where
  msg : (m : ℕ) → s.sender ≡ quiet → Step s (signal_node_msg m s)
  signal : s.sender ≡ signalling → Step s (signal_cilk_semaphore s)
  wait : s.waiter ≡ running → Step s (record s { waiter = checking })
  wake : (t : System) → signal_node_wait s ≡ some t → Step s t

unfoldable pub start : System
unfolding signal_node_create
start = record { node = signal_node_create; waiter = running; sender = quiet }

pub data Reach : System → Type 0 where
  begin : Reach start
  later : {s t : System} → Reach s → Step s t → Reach t
