-- ===== src/Mutex/Spin.antt =====
-- batched-piper/runtime/spin_mutex.c, one access of the shared `struct spin_mutex` at a time.
use pracer.Base.{ℕ, ◌+◌, ◌≡◌, ◌==◌, leb, if◌then◌else◌}
use pracer.Mutex.Worker.{maxspin}

unfoldable pub spin_mutex_init : ℕ
spin_mutex_init = 0

-- Where a thread stands: outside, in spin_mutex_lock (`locking` before the first attempt,
-- `spinning` between attempts and `retrying` before a later one), before the attempt of
-- spin_mutex_trylock (`trying`), behind an attempt that acquired the lock (`holding`), or before
-- the write of spin_mutex_unlock (`unlocking`).
pub data Pc : Type 0 where
  idle locking trying holding unlocking : Pc
  spinning retrying : (count : ℕ) → Pc

-- The next access of a thread, with the value of the lock. TRY_ACQUIRE exchanges it for 1.
unfoldable pub advance : Pc → (lock : ℕ) → Pc × ℕ
advance idle lock = (idle, lock)
advance locking lock = if lock == 0 then (holding, 1) else (spinning 0, 1)
advance (spinning count) lock =
    let again = if leb maxspin (count + 1) then 0 else count + 1 in
    if lock == 0 then (retrying again, lock) else (spinning again, lock)
advance (retrying count) lock = if lock == 0 then (holding, 1) else (spinning count, 1)
advance trying lock = if lock == 0 then (holding, 1) else (idle, 1)
advance holding lock = (holding, lock)
advance unlocking lock = (idle, 0)

pub record System : Type 0 where
  pub lock : ℕ
  pub pc : ℕ → Pc

unfoldable pub moved : System → ℕ → Pc × ℕ → System
moved s w r = record { lock = r.1; pc = λ i. if i == w then r.0 else s.pc i }

-- Unlocking is for the thread that holds the lock.
pub data Step (s : System) : System → Type 0 where
  run : (w : ℕ) → Step s (moved s w (advance (s.pc w) s.lock))
  mutex_lock : (w : ℕ) → s.pc w ≡ idle → Step s (moved s w (locking, s.lock))
  mutex_trylock : (w : ℕ) → s.pc w ≡ idle → Step s (moved s w (trying, s.lock))
  mutex_unlock : (w : ℕ) → s.pc w ≡ holding → Step s (moved s w (unlocking, s.lock))

unfoldable pub start : System
unfolding spin_mutex_init
start = record { lock = spin_mutex_init; pc = λ i. idle }

pub data Reach : System → Type 0 where
  begin : Reach start
  later : {s t : System} → Reach s → Step s t → Reach t
