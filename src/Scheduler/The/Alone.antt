-- ===== src/Scheduler/The/Alone.antt =====
-- A whole return, and a whole steal, while nobody else is at work on the deque.
use pracer.Base.{
  ℕ, suc, sym, ◌+◌, ◌-◌, ◌≤◌, ◌<◌, ◌≡◌, ◌∙◌, refl, ap, true, false, ◌&&◌, ltb, if◌then◌else◌, ◌∷◌,
  inl, inr, arith, Bool-cases,
}
use pracer.Scheduler.The.{
  increment_E, decrement_E, can_steal_from, reset_the_exception, dekker_protocol,
  the_exception_check, running, orphaned, free, by_thief, outside, locked, pointer, System,
  decrement_tail, advance_owner, advance_thief, Reach,
}
use pracer.Scheduler.The.Invariant.{Safe, holds, busy, extra, unbusy, free_of}
use pracer.Scheduler.The.Safe.{Reach-Safe}

abbrev pub owner_access : System → System
owner_access s = advance_owner s.owner s

-- undo_detach, and the check where it fails.
abbrev pub return_from_spawn : System → System
return_from_spawn s = owner_access (owner_access (owner_access (decrement_tail s)))

abbrev pub thief_access : System → System
thief_access s = advance_thief s.thief s

abbrev pub steal : System → System
steal s =
    thief_access
      (thief_access (thief_access (thief_access (record s { thief = locked; lock = by_thief }))))

-- In every reachable state where the worker's lock is free, wherever the worker stands, four
-- accesses of a thief that has got the lock complete a steal: if the head is below the tail and the
-- protected tail, the thief has the frame at the head, and the head moves on by one; else nothing
-- is stolen, and the head stays. In both cases the exception pointer ends at the head, the rest of
-- the deque, the worker and what it has taken are as before, the lock is free again, and
-- dekker_protocol answers whether the frame is stolen, with the exception pointer at the new head.
pub steal_alone :
    (protected_tail : ℕ) (s : System)
    → Reach protected_tail s
    → s.lock ≡ free
    → (let d = s.deque in
        let may = ltb d.head d.tail && ltb d.head d.protected_tail in
        let head' : ℕ = if may then suc d.head else d.head in
        let s' = steal s in
        (s'.stolen ≡ (if may then d.ltq d.head ∷ s.stolen else s.stolen))
        × (s'.deque ≡ record d { head = head'; exc = pointer head' })
        × (s'.owner ≡ s.owner)
        × (s'.popped ≡ s.popped)
        × (s'.thief ≡ outside)
        × (s'.lock ≡ free)
        × ((dekker_protocol d).0 ≡ may)
        × ((dekker_protocol d).1.exc ≡ pointer head'))
unfolding advance_thief dekker_protocol increment_E can_steal_from decrement_E
steal_alone protected_tail s r unlocked =
    let h : Safe s.deque s.lock s.owner s.thief s.next s.popped s.stolen =
      Reach-Safe protected_tail s r in
    let calm =
      unbusy s.thief (free_of (holds s.owner) (busy s.thief) (sym unlocked ∙ h.lock_at)).1 in
    let exc : s.deque.exc ≡ pointer s.deque.head =
      h.exc_at ∙ ap (λ t. pointer (s.deque.head + extra t)) calm ∙ ap pointer (omega arith) in
    let next : s.deque.head + 1 ≡ suc s.deque.head = omega arith in
    let back : s.deque.head + 1 - 1 ≡ s.deque.head = omega arith in
    elim (Bool-cases (ltb s.deque.head s.deque.tail && ltb s.deque.head s.deque.protected_tail)) [
      | inl may ↦ rw (may, exc, next) (refl, refl, refl, refl, refl, refl, refl, refl)
      | inr may_not ↦ rw (may_not, exc, back) (refl, refl, refl, refl, refl, refl, refl, refl)
    ]

-- In every reachable state where the worker is in its code, no thief has its lock and the tail is
-- not at the queue's start, three accesses of the worker complete a return from a spawn: it takes
-- back its newest frame if there is one in its deque; else it ends without a parent, with its tail
-- where it was. The head stays in both cases, and the lock is free.
pub return_from_spawn_alone :
    (protected_tail : ℕ) (s : System)
    → Reach protected_tail s
    → s.owner ≡ running
    → s.thief ≡ outside
    → 0 < s.deque.tail
    → (let here = ltb s.deque.head s.deque.tail in
        let s' = return_from_spawn s in
        (s'.owner ≡ (if here then running else orphaned))
        × (s'.popped ≡ (if here then s.deque.ltq (s.deque.tail - 1) ∷ s.popped else s.popped))
        × (s'.deque.tail ≡ (if here then s.deque.tail - 1 else s.deque.tail))
        × (s'.deque.head ≡ s.deque.head)
        × (s'.lock ≡ free))
unfolding advance_owner decrement_tail the_exception_check reset_the_exception
return_from_spawn_alone protected_tail s r o th some_frame =
    let h : Safe s.deque s.lock s.owner s.thief s.next s.popped s.stolen =
      Reach-Safe protected_tail s r in
    let h' : Safe s.deque s.lock running outside s.next s.popped s.stolen = rw (← o, ← th) h in
    let exc : s.deque.exc ≡ pointer s.deque.head = h'.exc_at ∙ ap pointer (omega arith) in
    let lock : s.lock ≡ free = h'.lock_at in
    let within : s.deque.head ≤ s.deque.tail = h'.within in
    elim (Bool-cases (ltb s.deque.head s.deque.tail)) [
      | inl here ↦
          let kept : ltb (s.deque.tail - 1) s.deque.head ≡ false = ground arith in
          rw (here, exc, kept, lock) (refl, refl, refl, refl, refl)
      | inr gone ↦
          let below : ltb (s.deque.tail - 1) s.deque.head ≡ true = ground arith in
          let taken : ltb s.deque.head (s.deque.tail - 1 + 1) ≡ false = ground arith in
          let same : s.deque.tail - 1 + 1 ≡ s.deque.tail = omega arith in
          rw (gone, exc, below, lock, taken) (refl, refl, same, refl, refl)
    ]
