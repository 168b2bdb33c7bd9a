-- ===== src/Scheduler/The/Worker.antt =====
-- The worker's accesses and the invariant of the THE protocol.
use pracer.Base.{
  ℕ, suc, ◌+◌, ◌-◌, ◌≤◌, ◌<◌, ◌≡◌, ◌∙◌, refl, sym, ap, subst, false, ltb, ◌∷◌, inl, inr, arith,
  Bool-cases, eqb_refl, eqb_of_ne,
}
use pracer.Scheduler.The.{
  pointer, reset_the_exception, below_exc, the_exception_check, OwnerPc, running, orphaned, stored,
  undone, raised, checking, Holder, free, by_owner, by_thief, System, store_frame, decrement_tail,
  advance_owner,
}
use pracer.Scheduler.The.Contents.{Contents, stored-Contents, pushed-Contents, popped-Contents}
use pracer.Scheduler.The.Invariant.{
  low_of, extra, busy, holder_of, Safe, SafeSystem, low_le, ThiefAt-kept, ThiefAt-more, unbusy,
  free_of,
}

module _ (s : System) where
  -- The same with the worker in a given place.
  abbrev pub OwnerSafe : OwnerPc → Type 0
  OwnerSafe o = Safe s.deque s.lock o s.thief s.next s.popped s.stolen

  pub store_frame-Safe : OwnerSafe running → SafeSystem (store_frame s)
  unfolding store_frame
  store_frame-Safe h = record {
    owner_at = (refl, rw (eqb_refl s.deque.tail) refl);
    thief_at = h.thief_at;
    exc_at = h.exc_at;
    within = h.within;
    lock_at = h.lock_at;
    exclusive = h.exclusive;
    contents =
        stored-Contents _ _ _ _ _ _ h.contents _
          (λ i lt. rw (eqb_of_ne i s.deque.tail (λ e. omega arith)) refl);
  }

  pub decrement_tail-Safe : OwnerSafe running → 0 < s.deque.tail → SafeSystem (decrement_tail s)
  unfolding decrement_tail
  decrement_tail-Safe h some_frame =
      let same : suc (s.deque.tail - 1) ≡ s.deque.tail = omega arith in
      record {
        owner_at = refl;
        thief_at = rw same h.thief_at;
        exc_at = h.exc_at;
        within = rw same h.within;
        lock_at = h.lock_at;
        exclusive = h.exclusive;
        contents = rw same h.contents;
      }

  stored-Safe : (t : ℕ) → OwnerSafe (stored t) → SafeSystem (advance_owner (stored t) s)
  unfolding advance_owner
  stored-Safe t h =
      let (e, at) = h.owner_at in
      let more : t + 1 ≡ suc s.deque.tail = omega arith in
      let le = low_le s.thief s.deque.head s.deque.tail h.thief_at in
      record {
        owner_at = tt;
        thief_at = ThiefAt-more s.thief s.deque.head s.deque.tail (t + 1) h.thief_at (omega arith);
        exc_at = h.exc_at;
        within = omega (arith, h.within);
        lock_at = h.lock_at;
        exclusive = h.exclusive;
        contents = rw more (
            pushed-Contents _ _ _ _ _ _ h.contents (omega (arith, h.within))
              (ap s.deque.ltq (sym e) ∙ at));
      }

  undone-Safe : (t : ℕ) → OwnerSafe (undone t) → SafeSystem (advance_owner (undone t) s)
  unfolding advance_owner
  undone-Safe t h = elim (Bool-cases (below_exc t s.deque.exc)) [
    | inl below ↦ rw below (record {
      owner_at = h.owner_at;
      thief_at = h.thief_at;
      exc_at = h.exc_at;
      within = h.within;
      lock_at = h.lock_at;
      exclusive = h.exclusive;
      contents = h.contents;
    })
    | inr above ↦
        let seen : ltb t (s.deque.head + extra s.thief) ≡ false =
          ap (below_exc t) (sym h.exc_at) ∙ above in
        let ge : s.deque.head + extra s.thief ≤ t = ground arith in
        let e : t ≡ s.deque.tail = h.owner_at in
        let le = low_le s.thief s.deque.head _ h.thief_at in
        rw above (record {
          owner_at = tt;
          thief_at =
              ThiefAt-kept s.thief s.deque.head (suc s.deque.tail) s.deque.tail h.thief_at
                (omega arith);
          exc_at = h.exc_at;
          within = omega arith;
          lock_at = h.lock_at;
          exclusive = h.exclusive;
          contents =
              let left = popped-Contents _ _ _ _ _ _ h.contents t (omega arith) (omega arith) in
              subst
                (λ x.
                  Contents (low_of s.thief s.deque.head) x s.deque.ltq s.next
                    (s.deque.ltq t ∷ s.popped) s.stolen)
                e left;
        })
  ]

  acquire-Safe :
      (t : ℕ) (l : Holder)
      → s.owner ≡ raised t
      → s.lock ≡ l
      → OwnerSafe (raised t)
      → SafeSystem (advance_owner (raised t) s)
  unfolding advance_owner
  acquire-Safe t free o e h =
      let calm = (free_of false (busy s.thief) (sym e ∙ h.lock_at)).1 in
      rw e (record {
        owner_at = h.owner_at;
        thief_at = h.thief_at;
        exc_at = h.exc_at;
        within = h.within;
        lock_at = refl;
        exclusive = calm;
        contents = h.contents;
      })
  acquire-Safe t by_owner o e h =
      let h' = subst (λ l. Safe s.deque l (raised t) s.thief s.next s.popped s.stolen) e h in
      rw e (rw o h')
  acquire-Safe t by_thief o e h =
      let h' = subst (λ l. Safe s.deque l (raised t) s.thief s.next s.popped s.stolen) e h in
      rw e (rw o h')

  checking-Safe : (t : ℕ) → OwnerSafe (checking t) → SafeSystem (advance_owner (checking t) s)
  unfolding advance_owner the_exception_check reset_the_exception
  checking-Safe t h =
      let calm : busy s.thief ≡ false = h.exclusive in
      let none : extra s.thief ≡ 0 = ap extra (unbusy s.thief calm) in
      let exc : pointer s.deque.head ≡ pointer (s.deque.head + extra s.thief) =
        ap pointer (omega arith) in
      let unlocked : free ≡ holder_of false (busy s.thief) = rw calm refl in
      let e : t ≡ s.deque.tail = h.owner_at in
      let le = low_le s.thief s.deque.head _ h.thief_at in
      elim (Bool-cases (ltb s.deque.head (s.deque.tail + 1))) [
        | inl there ↦
            let before : s.deque.head ≤ t = ground arith in
            rw there (record {
              owner_at = tt;
              thief_at =
                  ThiefAt-kept s.thief s.deque.head (suc s.deque.tail) s.deque.tail h.thief_at
                    (omega arith);
              exc_at = exc;
              within = omega arith;
              lock_at = unlocked;
              exclusive = refl;
              contents =
                  let left = popped-Contents _ _ _ _ _ _ h.contents t (omega arith) (omega arith) in
                  subst
                    (λ x.
                      Contents (low_of s.thief s.deque.head) x s.deque.ltq s.next
                        (s.deque.ltq t ∷ s.popped) s.stolen)
                    e left;
            })
        | inr taken ↦
            let after : s.deque.tail + 1 ≤ s.deque.head = ground arith in
            let same : s.deque.tail + 1 ≡ suc s.deque.tail = omega arith in
            rw taken (record {
              owner_at = omega (arith, h.within);
              thief_at =
                  ThiefAt-more s.thief s.deque.head (suc s.deque.tail) (s.deque.tail + 1) h.thief_at
                    (omega arith);
              exc_at = exc;
              within = omega (arith, h.within);
              lock_at = unlocked;
              exclusive = refl;
              contents = rw same h.contents;
            })
      ]

  pub owner_runs-Safe : (o : OwnerPc) → s.owner ≡ o → OwnerSafe o → SafeSystem (advance_owner o s)
  unfolding advance_owner
  owner_runs-Safe running e h = rw e h
  owner_runs-Safe orphaned e h = rw e h
  owner_runs-Safe (stored t) e h = stored-Safe t h
  owner_runs-Safe (undone t) e h = undone-Safe t h
  owner_runs-Safe (raised t) e h = acquire-Safe t s.lock e refl h
  owner_runs-Safe (checking t) e h = checking-Safe t h
