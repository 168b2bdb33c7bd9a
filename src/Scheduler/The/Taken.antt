-- ===== src/Scheduler/The/Taken.antt =====
-- What the invariant of the THE protocol says of the frames.
use pracer.Base.{ℕ, ◌≤◌, ◌<◌, ◌≡◌, true, mem, Unique, Disjoint, ◌⊎◌, inl, inr, arith}
use pracer.Scheduler.The.{running, orphaned, outside, System, Reach}
use pracer.Scheduler.The.Invariant.{Safe}
use pracer.Scheduler.The.Safe.{Reach-Safe}

-- In every interleaving of a worker's detaches and returns with the steals of its thieves, no
-- frame is returned to twice, none is stolen twice, and none is both returned to and stolen.
pub taken_once :
    (protected_tail : ℕ) (s : System)
    → Reach protected_tail s
    → Unique s.popped × Unique s.stolen × Disjoint s.popped s.stolen
taken_once protected_tail s r =
    let h = Reach-Safe protected_tail s r in
    (h.contents.popped_once, h.contents.stolen_once, h.contents.apart)

-- No frame is lost: while the worker is in its code and no thief has its lock, each frame that it
-- has detached has been returned to, or has been stolen, or is in the deque between the head and
-- the tail.
pub none_lost :
    (protected_tail : ℕ) (s : System) (x : ℕ)
    → Reach protected_tail s
    → s.owner ≡ running
    → s.thief ≡ outside
    → x < s.next
    → (mem x s.popped ≡ true)
      ⊎ ((mem x s.stolen ≡ true)
          ⊎ ((i : ℕ) × (s.deque.head ≤ i) × (i < s.deque.tail) × (s.deque.ltq i ≡ x)))
none_lost protected_tail s x r o th lt =
    let h : Safe s.deque s.lock s.owner s.thief s.next s.popped s.stolen =
      Reach-Safe protected_tail s r in
    let h' : Safe s.deque s.lock running outside s.next s.popped s.stolen = rw (← o, ← th) h in
    h'.contents.found x lt

-- Where the check has found a worker to be without a parent, and no thief has its lock, its deque
-- is empty, as the assertion in the check says, and every frame that it has detached has been
-- returned to or stolen.
pub orphaned_empty :
    (protected_tail : ℕ) (s : System) (x : ℕ)
    → Reach protected_tail s
    → s.owner ≡ orphaned
    → s.thief ≡ outside
    → x < s.next
    → (s.deque.head ≡ s.deque.tail) × ((mem x s.popped ≡ true) ⊎ (mem x s.stolen ≡ true))
orphaned_empty protected_tail s x r o th lt =
    let h : Safe s.deque s.lock s.owner s.thief s.next s.popped s.stolen =
      Reach-Safe protected_tail s r in
    let h' : Safe s.deque s.lock orphaned outside s.next s.popped s.stolen = rw (← o, ← th) h in
    (
      h'.owner_at,
      elim (h'.contents.found x lt) [
        | inl p ↦ inl p
        | inr (inl p) ↦ inr p
        | inr (inr (i, from, within, e)) ↦ absurd (omega (arith, h'.owner_at))
      ],
    )
