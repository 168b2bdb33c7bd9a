-- ===== src/Mutex/SpinExclusion.antt =====
-- Mutual exclusion of spin_mutex.c, over every interleaving.
use pracer.Base.{
  ℕ, ◌∙◌, ◌≡◌, ◌≢◌, refl, sym, ap, Bool, true, false, ◌⊎◌, inl, inr, ◌==◌, arith, Bool-cases,
  eqb_refl, eqb_of_ne,
}
use pracer.Mutex.Spin.{
  Pc, idle, locking, trying, holding, unlocking, spinning, retrying, advance, System, moved, Step,
  run, mutex_lock, mutex_trylock, mutex_unlock, start, Reach, begin, later,
}

-- Behind an attempt that acquired the lock, and not yet behind its release.
abbrev pub inside : Pc → Bool
inside holding = true
inside unlocking = true
inside _ = false

abbrev Free : Pc × ℕ → Type 0
Free r = (inside r.0 ≡ false) × (r.1 ≡ 0)

abbrev Taken : Pc × ℕ → Type 0
Taken r = (inside r.0 ≡ true) × (r.1 ≡ 1)

advance-Free : (p : Pc) (lock : ℕ) → Free (p, lock) → Free (advance p lock) ⊎ Taken (advance p lock)
unfolding advance
advance-Free idle lock (o, l) = ground arith
advance-Free locking lock (o, l) = ground arith
advance-Free trying lock (o, l) = ground arith
advance-Free holding lock (o, l) = ground arith
advance-Free unlocking lock (o, l) = ground arith
advance-Free (spinning count) lock (o, l) = ground arith
advance-Free (retrying count) lock (o, l) = ground arith

advance_taken :
    (p : Pc) (lock : ℕ) → Taken (p, lock) → Free (advance p lock) ⊎ Taken (advance p lock)
unfolding advance
advance_taken idle lock (o, l) = ground arith
advance_taken locking lock (o, l) = ground arith
advance_taken trying lock (o, l) = ground arith
advance_taken holding lock (o, l) = ground arith
advance_taken unlocking lock (o, l) = ground arith
advance_taken (spinning count) lock (o, l) = ground arith
advance_taken (retrying count) lock (o, l) = ground arith

-- A thread outside leaves a taken lock as it is.
advance_other :
    (p : Pc) (lock : ℕ)
    → inside p ≡ false
    → lock ≡ 1
    → (inside (advance p lock).0 ≡ false) × ((advance p lock).1 ≡ 1)
unfolding advance
advance_other idle lock o l = ground arith
advance_other locking lock o l = ground arith
advance_other trying lock o l = ground arith
advance_other holding lock o l = ground arith
advance_other unlocking lock o l = ground arith
advance_other (spinning count) lock o l = ground arith
advance_other (retrying count) lock o l = ground arith

-- The thread inside is `w`, or there is none.
record OneInside (s : System) : Type 0 where
  w : ℕ
  taken : Taken (s.pc w, s.lock)
  others : (a : ℕ) → a ≢ w → inside (s.pc a) ≡ false

Exclusive : System → Type 0
Exclusive s = ((s.lock ≡ 0) × ((a : ℕ) → inside (s.pc a) ≡ false)) ⊎ OneInside s

moved-Exclusive :
    (s : System) (w : ℕ) (r : Pc × ℕ)
    → ((a : ℕ) → a ≢ w → inside (s.pc a) ≡ false)
    → Free r ⊎ Taken r
    → Exclusive (moved s w r)
unfolding Exclusive moved
moved-Exclusive s w r others (inl (o, l)) =
    inl (
      l,
      λ a. elim (Bool-cases (a == w)) [ inl h ↦ rw h o | inr h ↦ rw h (others a (ground arith)) ],
    )
moved-Exclusive s w r others (inr taken) = inr (record {
  w = w;
  taken = rw (eqb_refl w) taken;
  others = λ a ne. rw (eqb_of_ne a w ne) (others a ne);
})

moved-around :
    (s : System) (w : ℕ) (r : Pc × ℕ) (one : OneInside s)
    → w ≢ one.w
    → (inside r.0 ≡ false) × (r.1 ≡ 1)
    → Exclusive (moved s w r)
unfolding Exclusive moved
moved-around s w r one ne (o, l) = inr (record {
  w = one.w;
  taken = rw (eqb_of_ne one.w w (λ e. ne (sym e))) (one.taken.0, l);
  others = λ a h. elim (Bool-cases (a == w)) [ inl e ↦ rw e o | inr e ↦ rw e (one.others a h) ];
})

move-Exclusive :
    (s : System) (w : ℕ) (r : Pc × ℕ)
    → Exclusive s
    → (Free (s.pc w, s.lock) → Free r ⊎ Taken r)
    → (Taken (s.pc w, s.lock) → Free r ⊎ Taken r)
    → (inside (s.pc w) ≡ false → s.lock ≡ 1 → (inside r.0 ≡ false) × (r.1 ≡ 1))
    → Exclusive (moved s w r)
unfolding Exclusive
move-Exclusive s w r (inl (l, all)) free taken other =
    moved-Exclusive s w r (λ a ne. all a) (free (all w, l))
move-Exclusive s w r (inr one) free taken other = elim (Bool-cases (w == one.w)) [
  | inl h ↦
      let e : one.w ≡ w = ground arith in
      moved-Exclusive s w r (λ a ne. one.others a (ground arith)) (taken (rw e at one.taken))
  | inr h ↦
      let ne : w ≢ one.w = ground arith in
      moved-around s w r one ne (other (one.others w ne) one.taken.1)
]

true-false : true ≡ false → ⊥
true-false h = ground arith

Step-Exclusive : (s t : System) → Step s t → Exclusive s → Exclusive t
Step-Exclusive s t (run w) ex =
    move-Exclusive s w (advance (s.pc w) s.lock) ex (advance-Free (s.pc w) s.lock)
      (advance_taken (s.pc w) s.lock) (advance_other (s.pc w) s.lock)
Step-Exclusive s t (mutex_lock w e) ex =
    move-Exclusive s w (locking, s.lock) ex (λ h. inl (refl, h.1))
      (λ h. absurd (true-false (sym h.0 ∙ ap inside e))) (λ o l. (refl, l))
Step-Exclusive s t (mutex_trylock w e) ex =
    move-Exclusive s w (trying, s.lock) ex (λ h. inl (refl, h.1))
      (λ h. absurd (true-false (sym h.0 ∙ ap inside e))) (λ o l. (refl, l))
Step-Exclusive s t (mutex_unlock w e) ex =
    move-Exclusive s w (unlocking, s.lock) ex (λ h. absurd (true-false (sym (ap inside e) ∙ h.0)))
      (λ h. inr (refl, h.1)) (λ o l. absurd (true-false (sym (ap inside e) ∙ o)))

Reach-Exclusive : (s : System) → Reach s → Exclusive s
unfolding Exclusive start
Reach-Exclusive s begin = inl (refl, λ a. refl)
Reach-Exclusive s (later r step) = Step-Exclusive _ s step (Reach-Exclusive _ r)

inside_one : (s : System) (one : OneInside s) (w : ℕ) → inside (s.pc w) ≡ true → w ≡ one.w
inside_one s one w i = elim (Bool-cases (w == one.w)) [
  | inl h ↦ ground arith
  | inr h ↦ absurd (true-false (sym i ∙ one.others w (ground arith)))
]

-- In every state that threads reach in any interleaving of lock, trylock and unlock, where only
-- the holder unlocks, no two threads are between the acquisition and the release of the spin lock.
pub spin_mutex_lock-exclusive :
    (s : System) (v w : ℕ) → Reach s → inside (s.pc v) ≡ true → inside (s.pc w) ≡ true → v ≡ w
unfolding Exclusive
spin_mutex_lock-exclusive s v w r in_v in_w = elim (Reach-Exclusive s r) [
  | inl (l, all) ↦ absurd (true-false (sym in_v ∙ all v))
  | inr one ↦ inside_one s one v in_v ∙ sym (inside_one s one w in_w)
]
