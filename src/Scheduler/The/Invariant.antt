-- ===== src/Scheduler/The/Invariant.antt =====
-- What the THE protocol keeps between its accesses.
use pracer.Base.{ℕ, suc, ◌+◌, ◌≤◌, ◌<◌, ◌≡◌, refl, Bool, true, false, List, arith, ◌&&◌}
use pracer.Scheduler.The.{
  pointer, Deque, OwnerPc, running, orphaned, stored, undone, raised, checking, ThiefPc, outside,
  locked, incremented, stealing, failing, detached, Holder, free, by_owner, by_thief, System,
}
use pracer.Scheduler.The.Contents.{Contents}

-- The end of the deque: undo_detach decrements the tail before it knows whether it may.
abbrev pub end_of : OwnerPc → (tail : ℕ) → ℕ
end_of running tail = tail
end_of orphaned tail = tail
end_of (stored t) tail = tail
end_of (undone t) tail = suc tail
end_of (raised t) tail = suc tail
end_of (checking t) tail = suc tail

-- The first place whose frame no thief has.
abbrev pub low_of : ThiefPc → (head : ℕ) → ℕ
low_of (detached h) head = h
low_of outside head = head
low_of locked head = head
low_of incremented head = head
low_of stealing head = head
low_of failing head = head

-- What a thief has added to the exception pointer.
abbrev pub extra : ThiefPc → ℕ
extra outside = 0
extra locked = 0
extra incremented = 1
extra stealing = 1
extra failing = 1
extra (detached h) = 0

abbrev pub OwnerAt : OwnerPc → Deque → (next : ℕ) → Type 0
OwnerAt running d next = Unit
OwnerAt orphaned d next = d.head ≡ d.tail
OwnerAt (stored t) d next = (t ≡ d.tail) × (d.ltq t ≡ next)
OwnerAt (undone t) d next = t ≡ d.tail
OwnerAt (raised t) d next = t ≡ d.tail
OwnerAt (checking t) d next = t ≡ d.tail

abbrev pub ThiefAt : ThiefPc → (head bound : ℕ) → Type 0
ThiefAt outside head bound = Unit
ThiefAt locked head bound = Unit
ThiefAt incremented head bound = Unit
ThiefAt failing head bound = Unit
ThiefAt stealing head bound = head < bound
ThiefAt (detached h) head bound = head ≡ suc h

abbrev pub holds : OwnerPc → Bool
holds (checking t) = true
holds running = false
holds orphaned = false
holds (stored t) = false
holds (undone t) = false
holds (raised t) = false

abbrev pub busy : ThiefPc → Bool
busy outside = false
busy locked = true
busy incremented = true
busy stealing = true
busy failing = true
busy (detached h) = true

abbrev pub holder_of : (owner thief : Bool) → Holder
holder_of true thief = by_owner
holder_of false true = by_thief
holder_of false false = free

pub record Safe (d : Deque) (lock : Holder) (o : OwnerPc) (th : ThiefPc) (next : ℕ)
    (popped stolen : List ℕ) : Type 0 where
  pub owner_at : OwnerAt o d next
  pub thief_at : ThiefAt th d.head (end_of o d.tail)
  pub exc_at : d.exc ≡ pointer (d.head + extra th)
  pub within : d.head ≤ end_of o d.tail
  pub lock_at : lock ≡ holder_of (holds o) (busy th)
  pub exclusive : holds o && busy th ≡ false
  pub contents : Contents (low_of th d.head) (end_of o d.tail) d.ltq next popped stolen

abbrev pub SafeSystem : System → Type 0
SafeSystem s = Safe s.deque s.lock s.owner s.thief s.next s.popped s.stolen

pub low_le : (th : ThiefPc) (head bound : ℕ) → ThiefAt th head bound → low_of th head ≤ head
low_le outside head bound at = omega arith
low_le locked head bound at = omega arith
low_le incremented head bound at = omega arith
low_le stealing head bound at = omega arith
low_le failing head bound at = omega arith
low_le (detached h) head bound at = omega arith

-- A thief goes on as long as the deque keeps the frame that it has its eye on.
pub ThiefAt-kept :
    (th : ThiefPc) (head bound bound' : ℕ)
    → ThiefAt th head bound
    → head + extra th ≤ bound'
    → ThiefAt th head bound'
ThiefAt-kept outside head bound bound' at le = tt
ThiefAt-kept locked head bound bound' at le = tt
ThiefAt-kept incremented head bound bound' at le = tt
ThiefAt-kept stealing head bound bound' at le = omega arith
ThiefAt-kept failing head bound bound' at le = tt
ThiefAt-kept (detached h) head bound bound' at le = at

pub ThiefAt-more :
    (th : ThiefPc) (head bound bound' : ℕ)
    → ThiefAt th head bound
    → bound ≤ bound'
    → ThiefAt th head bound'
ThiefAt-more outside head bound bound' at le = tt
ThiefAt-more locked head bound bound' at le = tt
ThiefAt-more incremented head bound bound' at le = tt
ThiefAt-more stealing head bound bound' at le = omega arith
ThiefAt-more failing head bound bound' at le = tt
ThiefAt-more (detached h) head bound bound' at le = at

pub unbusy : (th : ThiefPc) → busy th ≡ false → th ≡ outside
unbusy outside e = refl
unbusy locked e = absurd (ground arith)
unbusy incremented e = absurd (ground arith)
unbusy stealing e = absurd (ground arith)
unbusy failing e = absurd (ground arith)
unbusy (detached h) e = absurd (ground arith)

pub free_of : (a b : Bool) → free ≡ holder_of a b → (a ≡ false) × (b ≡ false)
free_of true b e = absurd (ground arith)
free_of false true e = absurd (ground arith)
free_of false false e = (refl, refl)

pub and_true : (a : Bool) → a && true ≡ false → a ≡ false
and_true a e = ground arith
