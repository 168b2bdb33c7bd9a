-- ===== src/Mutex/Worker.antt =====
-- batched-piper/runtime/worker_mutex.c, one access of the shared `struct mutex` at a time.
use pracer.Base.{ℕ, zero, suc, ◌+◌, ◌≡◌, ◌≢◌, ◌==◌, leb, if◌then◌else◌}

-- `owner` is the address of a worker, 0 for none.
pub record Mutex : Type 0 where
  pub lock : ℕ
  pub owner : ℕ

unfoldable pub mutex_init : Mutex
mutex_init = record { lock = 0; owner = 0 }

-- Where a worker stands: outside, in __cilkrts_mutex_lock (`locking` before the first attempt,
-- `spinning` between attempts and `retrying` before a later one), in __cilkrts_mutex_trylock (`trying`), behind an attempt that
-- acquired the lock (`acquired` before the assertion, `checked` before the write of the owner), in
-- between (`holding`), in __cilkrts_mutex_unlock (`unlocking` before the assertion, then `clearing`
-- and `releasing` before the two writes), or stopped by an assertion.
pub data Pc : Type 0 where
  idle locking trying acquired checked holding unlocking clearing releasing failed : Pc
  spinning retrying : (count : ℕ) → Pc

abbrev pub maxspin : ℕ
maxspin = 1000

-- The next access of worker `w`. TRY_ACQUIRE exchanges the lock for 1. The worker that is `idle` or
-- `holding` makes none.
unfoldable pub advance : (w : ℕ) → Pc → Mutex → Pc × Mutex
advance w idle m = (idle, m)
advance w locking m =
    let m' = record m { lock = 1 } in if m.lock == 0 then (acquired, m') else (spinning 0, m')
advance w (spinning count) m =
    let again = if leb maxspin (count + 1) then 0 else count + 1 in
    if m.lock == 0 then (retrying again, m) else (spinning again, m)
advance w (retrying count) m =
    let m' = record m { lock = 1 } in if m.lock == 0 then (acquired, m') else (spinning count, m')
advance w trying m =
    let m' = record m { lock = 1 } in if m.lock == 0 then (acquired, m') else (idle, m')
advance w acquired m = if m.owner == 0 then (checked, m) else (failed, m)
advance w checked m = (holding, record m { owner = w })
advance w holding m = (holding, m)
advance w unlocking m = if m.owner == w then (clearing, m) else (failed, m)
advance w clearing m = (releasing, record m { owner = 0 })
advance w releasing m = (idle, record m { lock = 0 })
advance w failed m = (failed, m)

pub record System : Type 0 where
  pub mutex : Mutex
  pub pc : ℕ → Pc

unfoldable pub moved : System → ℕ → Pc → Mutex → System
moved s w p m = record { mutex = m; pc = λ i. if i == w then p else s.pc i }

-- A worker makes its next access, or calls one of the three functions. Unlocking is for the worker
-- that holds the lock.
pub data Step (s : System) : System → Type 0 where
  run :
      (w : ℕ)
      → w ≢ 0
      → Step s (moved s w (advance w (s.pc w) s.mutex).0 (advance w (s.pc w) s.mutex).1)
  mutex_lock : (w : ℕ) → w ≢ 0 → s.pc w ≡ idle → Step s (moved s w locking s.mutex)
  mutex_trylock : (w : ℕ) → w ≢ 0 → s.pc w ≡ idle → Step s (moved s w trying s.mutex)
  mutex_unlock : (w : ℕ) → w ≢ 0 → s.pc w ≡ holding → Step s (moved s w unlocking s.mutex)

unfoldable pub start : System
unfolding mutex_init
start = record { mutex = mutex_init; pc = λ i. idle }

pub data Reach : System → Type 0 where
  begin : Reach start
  later : {s t : System} → Reach s → Step s t → Reach t

-- What `n` accesses of a worker give while no other worker makes one.
unfoldable pub advance_times : ℕ → (w : ℕ) → Pc × Mutex → Pc × Mutex
unfolding advance
advance_times zero w (p, m) = (p, m)
advance_times (suc n) w (p, m) = advance_times n w (advance w p m)
