-- ===== src/Scheduler/The/Safe.antt =====
-- The accesses of a thief, and the steps of the THE protocol, with the invariant.
use pracer.Base.{
  ℕ, ◌+◌, ◌≤◌, ◌<◌, ◌≡◌, ◌∙◌, refl, sym, ap, subst, Bool, true, false, ◌&&◌, ltb, ◌∷◌, inl, inr,
  arith, Bool-cases,
}
use pracer.Scheduler.The.{
  Exc, pointer, Deque, increment_E, decrement_E, can_steal_from, OwnerPc, running, orphaned, stored,
  undone, raised, checking, ThiefPc, outside, locked, incremented, stealing, failing, detached,
  free, by_thief, System, advance_thief, Step, detach, undo_detach, owner_runs,
  worker_trylock_other, thief_runs, abort, give_up, start, Reach, begin, later,
}
use pracer.Scheduler.The.Contents.{Contents, stolen-Contents}
use pracer.Scheduler.The.Invariant.{
  end_of, OwnerAt, holds, holder_of, Safe, SafeSystem, free_of, and_true,
}
use pracer.Scheduler.The.Worker.{store_frame-Safe, decrement_tail-Safe, owner_runs-Safe}

-- Where there is a frame to steal the worker goes on as before when the head moves.
OwnerAt-moved :
    (o : OwnerPc) (d : Deque) (next head : ℕ)
    → OwnerAt o d next
    → d.head < end_of o d.tail
    → OwnerAt o (record d { head = head }) next
OwnerAt-moved running d next head here lt = tt
OwnerAt-moved orphaned d next head here lt = absurd (omega arith)
OwnerAt-moved (stored t) d next head here lt = here
OwnerAt-moved (undone t) d next head here lt = here
OwnerAt-moved (raised t) d next head here lt = here
OwnerAt-moved (checking t) d next head here lt = here

-- The same with the exception pointer changed.
OwnerAt-exc :
    (o : OwnerPc) (d : Deque) (next : ℕ) (exc : Exc)
    → OwnerAt o d next
    → OwnerAt o (record d { exc = exc }) next
OwnerAt-exc running d next exc here = tt
OwnerAt-exc orphaned d next exc here = here
OwnerAt-exc (stored t) d next exc here = here
OwnerAt-exc (undone t) d next exc here = here
OwnerAt-exc (raised t) d next exc here = here
OwnerAt-exc (checking t) d next exc here = here

tail_end : (o : OwnerPc) (tail : ℕ) → tail ≤ end_of o tail
tail_end running tail = omega arith
tail_end orphaned tail = omega arith
tail_end (stored t) tail = omega arith
tail_end (undone t) tail = omega arith
tail_end (raised t) tail = omega arith
tail_end (checking t) tail = omega arith

unlocked : (o : OwnerPc) → holds o && true ≡ false → free ≡ holder_of (holds o) false
unlocked o e = rw (and_true (holds o) e) refl

unheld : (a : Bool) → a && false ≡ false
unheld true = refl
unheld false = refl

module _ (s : System) where
  abbrev ThiefSafe : ThiefPc → Type 0
  ThiefSafe th = Safe s.deque s.lock s.owner th s.next s.popped s.stolen

  locked-Safe : ThiefSafe locked → SafeSystem (advance_thief locked s)
  unfolding advance_thief increment_E
  locked-Safe h = record {
    owner_at = OwnerAt-exc s.owner s.deque s.next _ h.owner_at;
    thief_at = tt;
    exc_at = rw h.exc_at (ap pointer (omega arith));
    within = h.within;
    lock_at = h.lock_at;
    exclusive = h.exclusive;
    contents = h.contents;
  }

  incremented-Safe : ThiefSafe incremented → SafeSystem (advance_thief incremented s)
  unfolding advance_thief can_steal_from
  incremented-Safe h =
      let bound = tail_end s.owner s.deque.tail in
      elim (Bool-cases (ltb s.deque.head s.deque.tail && ltb s.deque.head s.deque.protected_tail)) [
        | inl may ↦
            let lt : s.deque.head < s.deque.tail = ground arith in
            rw may (record {
              owner_at = h.owner_at;
              thief_at = omega arith;
              exc_at = h.exc_at;
              within = h.within;
              lock_at = h.lock_at;
              exclusive = h.exclusive;
              contents = h.contents;
            })
        | inr may_not ↦ rw may_not (record {
          owner_at = h.owner_at;
          thief_at = tt;
          exc_at = h.exc_at;
          within = h.within;
          lock_at = h.lock_at;
          exclusive = h.exclusive;
          contents = h.contents;
        })
      ]

  failing-Safe : ThiefSafe failing → SafeSystem (advance_thief failing s)
  unfolding advance_thief decrement_E
  failing-Safe h = record {
    owner_at = OwnerAt-exc s.owner s.deque s.next _ h.owner_at;
    thief_at = tt;
    exc_at = rw h.exc_at (ap pointer (omega arith));
    within = h.within;
    lock_at = unlocked s.owner h.exclusive;
    exclusive = unheld (holds s.owner);
    contents = h.contents;
  }

  stealing-Safe : ThiefSafe stealing → SafeSystem (advance_thief stealing s)
  unfolding advance_thief
  stealing-Safe h = record {
    owner_at = OwnerAt-moved s.owner s.deque s.next (s.deque.head + 1) h.owner_at h.thief_at;
    thief_at = omega arith;
    exc_at = h.exc_at ∙ ap pointer (omega arith);
    within = omega (arith, h.thief_at);
    lock_at = h.lock_at;
    exclusive = h.exclusive;
    contents = h.contents;
  }

  detached-Safe : (p : ℕ) → ThiefSafe (detached p) → SafeSystem (advance_thief (detached p) s)
  unfolding advance_thief
  detached-Safe p h = record {
    owner_at = h.owner_at;
    thief_at = tt;
    exc_at = h.exc_at;
    within = h.within;
    lock_at = unlocked s.owner h.exclusive;
    exclusive = unheld (holds s.owner);
    contents =
        let left = stolen-Contents _ _ _ _ _ _ h.contents (omega (arith, h.thief_at, h.within)) in
        subst
          (λ x.
            Contents x (end_of s.owner s.deque.tail) s.deque.ltq s.next s.popped
              (s.deque.ltq p ∷ s.stolen))
          (sym h.thief_at) left;
  }

  thief_runs-Safe : (th : ThiefPc) → s.thief ≡ th → ThiefSafe th → SafeSystem (advance_thief th s)
  unfolding advance_thief
  thief_runs-Safe outside e h = rw e h
  thief_runs-Safe locked e h = locked-Safe h
  thief_runs-Safe incremented e h = incremented-Safe h
  thief_runs-Safe stealing e h = stealing-Safe h
  thief_runs-Safe failing e h = failing-Safe h
  thief_runs-Safe (detached p) e h = detached-Safe p h

  attempt-Safe :
      s.lock ≡ free → ThiefSafe outside → SafeSystem (record s { thief = locked; lock = by_thief })
  attempt-Safe e h =
      let none = (free_of (holds s.owner) false (sym e ∙ h.lock_at)).0 in
      record {
        owner_at = h.owner_at;
        thief_at = tt;
        exc_at = h.exc_at;
        within = h.within;
        lock_at = rw none refl;
        exclusive = rw none refl;
        contents = h.contents;
      }

  give_up-Safe : ThiefSafe locked → SafeSystem (record s { thief = outside; lock = free })
  give_up-Safe h = record {
    owner_at = h.owner_at;
    thief_at = tt;
    exc_at = h.exc_at;
    within = h.within;
    lock_at = unlocked s.owner h.exclusive;
    exclusive = unheld (holds s.owner);
    contents = h.contents;
  }

  abort-Safe : ThiefSafe stealing → SafeSystem (record s { thief = failing })
  abort-Safe h = record {
    owner_at = h.owner_at;
    thief_at = tt;
    exc_at = h.exc_at;
    within = h.within;
    lock_at = h.lock_at;
    exclusive = h.exclusive;
    contents = h.contents;
  }

Step-Safe : (s t : System) → Step s t → SafeSystem s → SafeSystem t
Step-Safe s t (detach e) h = store_frame-Safe s (rw (← e) h)
Step-Safe s t (undo_detach e lt) h = decrement_tail-Safe s (rw (← e) h) lt
Step-Safe s t owner_runs h = owner_runs-Safe s s.owner refl h
Step-Safe s t (worker_trylock_other e e') h = attempt-Safe s e' (rw (← e) h)
Step-Safe s t thief_runs h = thief_runs-Safe s s.thief refl h
Step-Safe s t (abort e) h = abort-Safe s (rw (← e) h)
Step-Safe s t (give_up e) h = give_up-Safe s (rw (← e) h)

start-Safe : (p : ℕ) → SafeSystem (start p)
start-Safe p = record {
  owner_at = tt;
  thief_at = tt;
  exc_at = refl;
  within = omega arith;
  lock_at = refl;
  exclusive = refl;
  contents = record {
    ascending = λ i j from lt within. absurd (omega arith);
    known = λ i from within. absurd (omega arith);
    not_popped = λ i from within. refl;
    not_stolen = λ i from within. refl;
    popped_known = λ x ge. refl;
    stolen_known = λ x ge. refl;
    apart = λ x e. refl;
    popped_once = tt;
    stolen_once = tt;
    found = λ x lt. absurd (omega arith);
  };
}

pub Reach-Safe : (p : ℕ) (s : System) → Reach p s → SafeSystem s
Reach-Safe p s begin = start-Safe p
Reach-Safe p s (later r step) = Step-Safe _ s step (Reach-Safe p _ r)
