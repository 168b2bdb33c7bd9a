-- ===== src/Tests/Locks.antt =====
-- A worker that takes the lock, a thread that takes the spin lock, and a worker that is woken.
use pracer.Base.{ℕ, ◌+◌, ◌≡◌, ◌≢◌, refl, some, arith}
use pracer.Mutex.Worker.{
  mutex_init, advance, System, moved, Reach, begin, later, start, run, mutex_lock, locking,
}
use pracer.Mutex.Exclusion.{mutex_lock-exclusive}
use pracer.Mutex.Spin
use pracer.Mutex.SpinExclusion.{spin_mutex_lock-exclusive}
use pracer.SignalNode
use pracer.SignalNode.Wakeup.{signal_node_wait-wakes}

abbrev after : System → System
after s = moved s 7 (advance 7 (s.pc 7) s.mutex).0 (advance 7 (s.pc 7) s.mutex).1

abbrev locked : System
locked = after (after (after (moved start 7 locking start.mutex)))

abbrev worker : ℕ
worker = 7

abbrev thread : ℕ
thread = 2

seven : worker ≢ 0
seven = ground arith

locked-Reach : Reach locked
unfolding start
locked-Reach =
    later (later (later (later begin (mutex_lock 7 seven refl)) (run 7 seven)) (run 7 seven))
      (run 7 seven)

mutex_lock-exclusive_example : worker ≡ worker
unfolding moved advance start mutex_init
mutex_lock-exclusive_example = mutex_lock-exclusive locked 7 7 locked-Reach refl refl

abbrev spin_called : Spin.System
spin_called = Spin.moved Spin.start 2 (Spin.locking, Spin.start.lock)

abbrev spin_locked : Spin.System
spin_locked = Spin.moved spin_called 2 (Spin.advance (spin_called.pc 2) spin_called.lock)

spin_locked-Reach : Spin.Reach spin_locked
unfolding Spin.start
spin_locked-Reach = Spin.later (Spin.later Spin.begin (Spin.mutex_lock 2 refl)) (Spin.run 2)

spin_mutex_lock-exclusive_example : thread ≡ thread
unfolding Spin.moved Spin.advance Spin.start Spin.spin_mutex_init
spin_mutex_lock-exclusive_example =
    spin_mutex_lock-exclusive spin_locked 2 2 spin_locked-Reach refl refl

abbrev asleep : SignalNode.System
asleep = record {
  node = record { run = 0; sem = 0 };
  waiter = SignalNode.blocked;
  sender = SignalNode.quiet;
}

abbrev called : SignalNode.System
called = SignalNode.signal_cilk_semaphore (SignalNode.signal_node_msg 1 asleep)

called-Reach : SignalNode.Reach called
unfolding SignalNode.start SignalNode.signal_node_create SignalNode.signal_node_wait
    SignalNode.signal_node_should_wait SignalNode.signal_node_msg
called-Reach =
    SignalNode.later
      (SignalNode.later
        (SignalNode.later (SignalNode.later SignalNode.begin (SignalNode.wait refl))
          (SignalNode.wake asleep refl))
        (SignalNode.msg 1 refl))
      (SignalNode.signal refl)

signal_node_wait-wakes_example :
    (t : SignalNode.System) × (u : SignalNode.System) × (SignalNode.signal_node_wait called
      ≡ some t)
    × (SignalNode.signal_node_wait t ≡ some u)
    × (u.waiter ≡ SignalNode.running)
    × (u.node.sem + 1 ≡ called.node.sem)
unfolding SignalNode.signal_node_msg SignalNode.signal_cilk_semaphore
signal_node_wait-wakes_example = signal_node_wait-wakes called called-Reach refl refl (ground arith)
