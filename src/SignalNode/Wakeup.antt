-- ===== src/SignalNode/Wakeup.antt =====
-- No wake-up of signal_node.c is lost.
use pracer.Base.{
  ℕ, zero, suc, ◌+◌, ◌<◌, ◌≡◌, ◌≢◌, ◌∙◌, refl, sym, ap, false, ◌⊎◌, inl, inr, some, ◌==◌, arith,
  Bool-cases, some_inj,
}
use pracer.SignalNode.{
  signal_node_should_wait, Waiter, running, checking, blocked, quiet, signalling, System,
  signal_node_msg, signal_cilk_semaphore, signal_node_wait, Step, msg, signal, wait, wake, start,
  Reach, begin, later,
}

-- A worker that sleeps although it should run has a signal waiting, or one that is about to come.
abbrev Woken : System → Type 0
Woken s = (s.node.run ≡ 0) ⊎ ((s.waiter ≢ blocked) ⊎ ((0 < s.node.sem) ⊎ (s.sender ≡ signalling)))

running-not-blocked : running ≢ blocked
running-not-blocked h = ground arith

checking-not-blocked : checking ≢ blocked
checking-not-blocked h = ground arith

zero_or_suc : (n : ℕ) → (n ≡ 0) ⊎ ((m : ℕ) × (n ≡ suc m))
zero_or_suc zero = inl refl
zero_or_suc (suc m) = inr (m, refl)

msg-Woken : (m : ℕ) (s : System) → s.sender ≡ quiet → Woken s → Woken (signal_node_msg m s)
unfolding signal_node_msg
msg-Woken zero s q w = inl refl
msg-Woken (suc zero) s q w = inr (inr (inr refl))
msg-Woken (suc (suc m)) s q w = elim w [
  | inl e ↦ inl e
  | inr (inl e) ↦ inr (inl e)
  | inr (inr (inl e)) ↦ inr (inr (inl e))
  | inr (inr (inr e)) ↦ absurd (ground arith)
]

wake-Woken : (s t : System) (p : Waiter) → s.waiter ≡ p → signal_node_wait s ≡ some t → Woken t
unfolding signal_node_wait signal_node_should_wait
wake-Woken s t running e h = absurd (cc (simp (signal_node_wait, e) at h))
wake-Woken s t checking e h = elim (Bool-cases (s.node.run == 0)) [
  | inl off ↦
      let same = some_inj (simp (signal_node_wait, e, off) at h) in
      inl (ap (λ u. u.node.run) (sym same) ∙ ground arith)
  | inr on ↦
      let same = some_inj (simp (signal_node_wait, e, on) at h) in
      inr (inl (rw (← same) running-not-blocked))
]
wake-Woken s t blocked e h = elim (zero_or_suc s.node.sem) [
  | inl none_left ↦ absurd (cc (simp (signal_node_wait, e, none_left) at h))
  | inr (n, left) ↦
      let same = some_inj (simp (signal_node_wait, e, left) at h) in
      inr (inl (rw (← same) checking-not-blocked))
]

Step-Woken : (s t : System) → Step s t → Woken s → Woken t
unfolding signal_cilk_semaphore
Step-Woken s t (msg m q) w = msg-Woken m s q w
Step-Woken s t (signal q) w = inr (inr (inl (omega arith)))
Step-Woken s t (wait r) w = inr (inl checking-not-blocked)
Step-Woken s t (wake u e) w = wake-Woken s t s.waiter refl e

Reach-Woken : (s : System) → Reach s → Woken s
unfolding start
Reach-Woken s begin = inr (inl running-not-blocked)
Reach-Woken s (later r step) = Step-Woken _ s step (Reach-Woken _ r)

-- In every state that can be reached, a worker that sleeps on its semaphore while it should run, and
-- to which no message is under way, is woken: its next two accesses return from signal_node_wait.
pub signal_node_wait-wakes :
    (s : System)
    → Reach s
    → s.waiter ≡ blocked
    → s.sender ≡ quiet
    → s.node.run ≢ 0
    → (t : System) × (u : System) × (signal_node_wait s ≡ some t)
      × (signal_node_wait t ≡ some u)
      × (u.waiter ≡ running)
      × (u.node.sem + 1 ≡ s.node.sem)
unfolding signal_node_wait signal_node_should_wait
signal_node_wait-wakes s r b q on =
    let off : (s.node.run == 0) ≡ false = ground arith in
    elim (zero_or_suc s.node.sem) [
      | inr (n, left) ↦ (
        record s { node = record (s.node) { sem = n }; waiter = checking },
        record s { node = record (s.node) { sem = n }; waiter = running },
        simp (signal_node_wait, b, left),
        rw off refl,
        refl,
        omega arith,
      )
      | inl gone ↦ absurd (elim (Reach-Woken s r) [
        | inl e ↦ on e
        | inr (inl e) ↦ e b
        | inr (inr (inl e)) ↦ omega arith
        | inr (inr (inr e)) ↦ ground (arith)
      ])
    ]
