-- ===== src/Mutex/Exclusion.antt =====
-- Mutual exclusion of worker_mutex.c, over every interleaving.
use mathlib.Core.Path.{subst}
use pracer.Base.{
  ℕ, ◌∙◌, ◌≡◌, ◌≢◌, refl, sym, ap, Bool, true, false, ◌⊎◌, inl, inr, ◌==◌, arith, Bool-cases,
  eqb_refl, eqb_of_ne,
}
use pracer.Mutex.Worker.{
  Mutex, Pc, idle, locking, trying, acquired, checked, holding, unlocking, clearing, releasing,
  failed, spinning, retrying, advance, advance_times, System, moved, Step, run, mutex_lock,
  mutex_trylock, mutex_unlock, start, Reach, begin, later, mutex_init,
}

-- Behind an attempt that acquired the lock, and not yet behind its release.
abbrev pub inside : Pc → Bool
inside acquired = true
inside checked = true
inside holding = true
inside unlocking = true
inside clearing = true
inside releasing = true
inside _ = false

abbrev pub outside : Pc → Bool
outside idle = true
outside locking = true
outside trying = true
outside (spinning count) = true
outside (retrying count) = true
outside _ = false

-- What `owner` holds while worker `w` is inside.
abbrev owner_at : (w : ℕ) → Pc → ℕ
owner_at w holding = w
owner_at w unlocking = w
owner_at w clearing = w
owner_at w _ = 0

abbrev Free : (w : ℕ) → Pc → Mutex → Type 0
Free w p m = (outside p ≡ true) × (m.lock ≡ 0) × (m.owner ≡ 0)

abbrev Taken : (w : ℕ) → Pc → Mutex → Type 0
Taken w p m = (inside p ≡ true) × (m.lock ≡ 1) × (m.owner ≡ owner_at w p)

abbrev Next : (w : ℕ) → Pc × Mutex → Type 0
Next w r = Free w r.0 r.1 ⊎ Taken w r.0 r.1

advance-Free : (w : ℕ) (p : Pc) (m : Mutex) → Free w p m → Next w (advance w p m)
unfolding advance
advance-Free w idle m (o, l, n) = ground arith
advance-Free w locking m (o, l, n) = ground arith
advance-Free w trying m (o, l, n) = ground arith
advance-Free w acquired m (o, l, n) = ground arith
advance-Free w checked m (o, l, n) = ground arith
advance-Free w holding m (o, l, n) = ground arith
advance-Free w unlocking m (o, l, n) = ground arith
advance-Free w clearing m (o, l, n) = ground arith
advance-Free w releasing m (o, l, n) = ground arith
advance-Free w failed m (o, l, n) = ground arith
advance-Free w (spinning count) m (o, l, n) = ground arith
advance-Free w (retrying count) m (o, l, n) = ground arith

advance_taken : (w : ℕ) (p : Pc) (m : Mutex) → Taken w p m → Next w (advance w p m)
unfolding advance
advance_taken w idle m (o, l, n) = ground arith
advance_taken w locking m (o, l, n) = ground arith
advance_taken w trying m (o, l, n) = ground arith
advance_taken w acquired m (o, l, n) = ground arith
advance_taken w checked m (o, l, n) = ground arith
advance_taken w holding m (o, l, n) = ground arith
advance_taken w unlocking m (o, l, n) = ground arith
advance_taken w clearing m (o, l, n) = ground arith
advance_taken w releasing m (o, l, n) = ground arith
advance_taken w failed m (o, l, n) = ground arith
advance_taken w (spinning count) m (o, l, n) = ground arith
advance_taken w (retrying count) m (o, l, n) = ground arith

-- A worker outside leaves a taken lock as it is.
advance_other :
    (w : ℕ) (p : Pc) (m : Mutex)
    → outside p ≡ true
    → m.lock ≡ 1
    → (outside (advance w p m).0 ≡ true)
      × ((advance w p m).1.lock ≡ 1)
      × ((advance w p m).1.owner ≡ m.owner)
unfolding advance
advance_other w idle m o l = ground arith
advance_other w locking m o l = ground arith
advance_other w trying m o l = ground arith
advance_other w acquired m o l = ground arith
advance_other w checked m o l = ground arith
advance_other w holding m o l = ground arith
advance_other w unlocking m o l = ground arith
advance_other w clearing m o l = ground arith
advance_other w releasing m o l = ground arith
advance_other w failed m o l = ground arith
advance_other w (spinning count) m o l = ground arith
advance_other w (retrying count) m o l = ground arith

not_both : (p : Pc) → inside p ≡ true → outside p ≡ true → ⊥
not_both idle i o = ground arith
not_both locking i o = ground arith
not_both trying i o = ground arith
not_both acquired i o = ground arith
not_both checked i o = ground arith
not_both holding i o = ground arith
not_both unlocking i o = ground arith
not_both clearing i o = ground arith
not_both releasing i o = ground arith
not_both failed i o = ground arith
not_both (spinning count) i o = ground arith
not_both (retrying count) i o = ground arith

AllOutside : System → Type 0
AllOutside s = (s.mutex.lock ≡ 0) × (s.mutex.owner ≡ 0) × ((a : ℕ) → outside (s.pc a) ≡ true)

record OneInside (s : System) : Type 0 where
  w : ℕ
  taken : Taken w (s.pc w) s.mutex
  others : (a : ℕ) → a ≢ w → outside (s.pc a) ≡ true

Exclusive : System → Type 0
unfolding AllOutside
Exclusive s = AllOutside s ⊎ OneInside s

-- The worker that moves is the one inside, or no worker is.
moved-Exclusive :
    (s : System) (w : ℕ) (r : Pc × Mutex)
    → ((a : ℕ) → a ≢ w → outside (s.pc a) ≡ true)
    → Next w r
    → Exclusive (moved s w r.0 r.1)
unfolding Exclusive AllOutside moved
moved-Exclusive s w (p, m) others (inl (o, l, n)) = inl (
  l,
  n,
  λ a. elim (Bool-cases (a == w)) [ inl h ↦ rw h o | inr h ↦ rw h (others a (ground arith)) ],
)
moved-Exclusive s w (p, m) others (inr taken) = inr (record {
  w = w;
  taken = rw (eqb_refl w) taken;
  others = λ a ne. rw (eqb_of_ne a w ne) (others a ne);
})

-- Another worker is inside.
moved-around :
    (s : System) (w : ℕ) (r : Pc × Mutex) (one : OneInside s)
    → w ≢ one.w
    → (outside r.0 ≡ true) × (r.1.lock ≡ 1) × (r.1.owner ≡ s.mutex.owner)
    → Exclusive (moved s w r.0 r.1)
unfolding Exclusive AllOutside moved
moved-around s w (p, m) one ne (o, l, n) = inr (record {
  w = one.w;
  taken = rw (eqb_of_ne one.w w (λ e. ne (sym e))) (one.taken.0, l, n ∙ one.taken.2);
  others = λ a h. elim (Bool-cases (a == w)) [ inl e ↦ rw e o | inr e ↦ rw e (one.others a h) ];
})

-- A move that takes the worker, free or taken, to free or taken, and that leaves a taken lock alone.
move-Exclusive :
    (s : System) (w : ℕ) (r : Pc × Mutex)
    → Exclusive s
    → (Free w (s.pc w) s.mutex → Next w r)
    → (Taken w (s.pc w) s.mutex → Next w r)
    → (outside (s.pc w) ≡ true
        → s.mutex.lock ≡ 1
        → (outside r.0 ≡ true) × (r.1.lock ≡ 1) × (r.1.owner ≡ s.mutex.owner))
    → Exclusive (moved s w r.0 r.1)
unfolding Exclusive AllOutside
move-Exclusive s w r (inl (l, n, all)) free taken other =
    moved-Exclusive s w r (λ a ne. all a) (free (all w, l, n))
move-Exclusive s w r (inr one) free taken other = elim (Bool-cases (w == one.w)) [
  | inl h ↦
      let e : one.w ≡ w = ground arith in
      moved-Exclusive s w r (λ a ne. one.others a (ground arith))
        (taken (subst (λ v. Taken v (s.pc v) s.mutex) e one.taken))
  | inr h ↦
      let ne : w ≢ one.w = ground arith in
      moved-around s w r one ne (other (one.others w ne) one.taken.1)
]

Step-Exclusive : (s t : System) → Step s t → Exclusive s → Exclusive t
Step-Exclusive s t (run w ok) ex =
    move-Exclusive s w (advance w (s.pc w) s.mutex) ex (advance-Free w (s.pc w) s.mutex)
      (advance_taken w (s.pc w) s.mutex) (advance_other w (s.pc w) s.mutex)
Step-Exclusive s t (mutex_lock w ok e) ex =
    move-Exclusive s w (locking, s.mutex) ex (λ h. inl (refl, h.1, h.2))
      (λ h. absurd (not_both (s.pc w) h.0 (rw e refl))) (λ o l. (refl, l, refl))
Step-Exclusive s t (mutex_trylock w ok e) ex =
    move-Exclusive s w (trying, s.mutex) ex (λ h. inl (refl, h.1, h.2))
      (λ h. absurd (not_both (s.pc w) h.0 (rw e refl))) (λ o l. (refl, l, refl))
Step-Exclusive s t (mutex_unlock w ok e) ex =
    move-Exclusive s w (unlocking, s.mutex) ex (λ h. absurd (not_both (s.pc w) (rw e refl) h.0))
      (λ h. inr (refl, h.1, h.2 ∙ ap (owner_at w) e))
      (λ o l. absurd (not_both (s.pc w) (rw e refl) o))

Reach-Exclusive : (s : System) → Reach s → Exclusive s
unfolding Exclusive AllOutside start
Reach-Exclusive s begin = inl (refl, refl, λ a. refl)
Reach-Exclusive s (later r step) = Step-Exclusive _ s step (Reach-Exclusive _ r)

false-true : false ≡ true → ⊥
false-true h = ground arith

inside_one : (s : System) (one : OneInside s) (w : ℕ) → inside (s.pc w) ≡ true → w ≡ one.w
inside_one s one w i = elim (Bool-cases (w == one.w)) [
  | inl h ↦ ground arith
  | inr h ↦ absurd (not_both (s.pc w) i (one.others w (ground arith)))
]

-- In every state that workers reach in any interleaving of lock, trylock and unlock, where only
-- the holder unlocks, no two workers are between the acquisition and the release of the lock.
pub mutex_lock-exclusive :
    (s : System) (v w : ℕ) → Reach s → inside (s.pc v) ≡ true → inside (s.pc w) ≡ true → v ≡ w
unfolding Exclusive AllOutside
mutex_lock-exclusive s v w r in_v in_w = elim (Reach-Exclusive s r) [
  | inl (l, n, all) ↦ absurd (not_both (s.pc v) in_v (all v))
  | inr one ↦ inside_one s one v in_v ∙ sym (inside_one s one w in_w)
]

-- In every state that workers reach in any interleaving, where only the holder unlocks, no worker
-- is stopped by an assertion; while a worker holds the lock, the lock is 1 and the owner is that
-- worker.
pub mutex-owner :
    (s : System) (w : ℕ)
    → Reach s
    → (s.pc w ≢ failed) × (s.pc w ≡ holding → (s.mutex.lock ≡ 1) × (s.mutex.owner ≡ w))
unfolding Exclusive AllOutside
mutex-owner s w r = elim (Reach-Exclusive s r) [
  | inl (l, n, all) ↦
      (λ e. false-true (rw e at (all w)), λ e. absurd (not_both (s.pc w) (rw e refl) (all w)))
  | inr one ↦ (
    λ e. elim (Bool-cases (w == one.w)) [
      | inl h ↦ let same : one.w ≡ w = ground arith in false-true (rw (same, e) at one.taken.0)
      | inr h ↦ false-true (rw e at (one.others w (ground arith)))
    ],
    λ e.
        let same : one.w ≡ w = sym (inside_one s one w (rw e refl)) in
        (one.taken.1, rw (same, e) at one.taken.2),
  )
]

-- A worker that runs alone acquires a free lock with three accesses, and releases it with three.
pub lock_unlock-alone :
    (w : ℕ)
    → (advance_times 3 w (locking, mutex_init) ≡ (holding, record { lock = 1; owner = w }))
      × (advance_times 3 w (trying, mutex_init) ≡ (holding, record { lock = 1; owner = w }))
      × (advance_times 3 w (unlocking, record { lock = 1; owner = w }) ≡ (idle, mutex_init))
unfolding advance_times mutex_init
lock_unlock-alone w = (refl, refl, rw (eqb_refl w))
