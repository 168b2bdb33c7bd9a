-- ===== src/Stacks/Moves.antt =====
-- push, pop and trim against the places of the stacks.
use pracer.Base.{
  ℕ, ◌+◌, ◌/◌, ◌≤◌, ◌<◌, ◌≡◌, ◌≢◌, refl, ap, false, List, [], ◌∷◌, none, some, arith, ◌==◌, ltb,
  leb, length, if◌then◌else◌, ◌⊎◌, inl, inr, Bool-cases, List-cases,
}
use pracer.Stacks.{Caches, move_to_global, push, pop, trim_stack_cache}
use pracer.Stacks.Count.{count, copies, Bounded, move_to_global-keeps, free_down-keeps}

-- If no cache is over its size, push loses no stack and puts no cache over its size: the pushed
-- stack is in a cache or freed once more than before, and every other one as often as before.
pub push-copies :
    (sd : ℕ) (c : Caches)
    → Bounded c
    → Bounded (push sd c)
      × ((x : ℕ) → copies x (push sd c) ≡ (if x == sd then 1 else 0) + copies x c)
unfolding push
push-copies sd c b = elim (Bool-cases (ltb (length c.loc.stacks) c.loc.size)) [
  | inl room ↦ rw room ((ground arith, b.1), λ x. omega arith)
  | inr full ↦ elim (Bool-cases (c.loc.size == 0)) [
    | inl none_fit ↦ rw (full, none_fit) (b, λ x. omega arith)
    | inr some_fit ↦
        let half : ℕ = c.loc.size / 2 in
        let (b1, size1, same1) = move_to_global-keeps half c b in
        let (b2, size2, down, same2) = free_down-keeps half (move_to_global half c) b1 in
        let pos : c.loc.size ≢ 0 = ground arith in
        rw (full, some_fit) ((omega arith, b2.1), λ x. omega (arith, same1 x, same2 x))
  ]
]

-- With a local cache of size above 0, pop returns the stack that was pushed last.
pub pop-push : (sd : ℕ) (c : Caches) → 0 < c.loc.size → (pop (push sd c)).0 ≡ some sd
unfolding pop push
pop-push sd c pos =
    let ne : (c.loc.size == 0) ≡ false = ground arith in
    elim (Bool-cases (ltb (length c.loc.stacks) c.loc.size)) [
      | inl room ↦ rw room refl
      | inr full ↦ rw (full, ne) refl
    ]

pop_local :
    (c : Caches) (x : ℕ) (xs : List ℕ)
    → c.loc.stacks ≡ x ∷ xs
    → pop c ≡ (some x, record c { loc = record (c.loc) { stacks = xs } })
unfolding pop
pop_local c x xs e = simp (e, pop)

pop_global :
    (c : Caches) (x : ℕ) (xs : List ℕ)
    → c.loc.stacks ≡ []
    → c.glob.stacks ≡ x ∷ xs
    → pop c ≡ (some x, record c { glob = record (c.glob) { stacks = xs } })
unfolding pop
pop_global c x xs e e' = simp (e, e', pop)

pop_empty : (c : Caches) → c.loc.stacks ≡ [] → c.glob.stacks ≡ [] → pop c ≡ (none, c)
unfolding pop
pop_empty c e e' = simp (e, e', pop)

-- If no cache is over its size, pop takes one stack from the caches and keeps all others, or
-- returns NULL on empty caches and leaves them as they are.
pub pop-copies :
    (c : Caches)
    → Bounded c
    → (((pop c).0 ≡ none) × ((pop c).1 ≡ c) × (c.loc.stacks ≡ []) × (c.glob.stacks ≡ []))
      ⊎ ((sd : ℕ) × ((pop c).0 ≡ some sd)
          × Bounded (pop c).1
          × ((x : ℕ) → (if x == sd then 1 else 0) + copies x (pop c).1 ≡ copies x c))
pop-copies c b = elim (List-cases c.loc.stacks) [
  | inr (sd, xs, e) ↦
      let room = ap length e in
      rw (pop_local c sd xs e)
        (inr (sd, refl, (omega (arith, b.0), b.1), λ x. omega (arith, ap (count x) e)))
  | inl e ↦ elim (List-cases c.glob.stacks) [
    | inr (sd, xs, e') ↦
        let room = ap length e' in
        rw (pop_global c sd xs e e')
          (inr (sd, refl, (b.0, omega (arith, b.1)), λ x. omega (arith, ap (count x) e')))
    | inl e' ↦ rw (pop_empty c e e') (inl (refl, refl, e, e'))
  ]
]

-- If no cache is over its size, trim leaves at most one stack in the local cache, loses no stack,
-- and puts no cache over its size.
pub trim_stack_cache-copies :
    (c : Caches)
    → Bounded c
    → Bounded (trim_stack_cache c)
      × (length (trim_stack_cache c).loc.stacks ≤ 1)
      × ((x : ℕ) → copies x (trim_stack_cache c) ≡ copies x c)
unfolding trim_stack_cache
trim_stack_cache-copies c b = elim (Bool-cases (leb (length c.loc.stacks) 1)) [
  | inl few ↦ rw few (b, ground arith, λ x. refl)
  | inr many ↦
      let (b1, size1, same1) = move_to_global-keeps 1 c b in
      let (b2, size2, down, same2) = free_down-keeps 1 (move_to_global 1 c) b1 in
      rw many (b2, down, λ x. omega (arith, same1 x, same2 x))
]
