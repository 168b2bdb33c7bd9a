-- ===== src/Stacks/Count.antt =====
-- Where the stacks are, and that the loops lose none.
use pracer.Base.{
  ℕ, ◌+◌, ◌≤◌, ◌≡◌, refl, ◌&&◌, List, [], ◌∷◌, arith, ◌==◌, ltb, leb, length, if◌then◌else◌, inl,
  inr, Bool-cases,
}
use pracer.Stacks.{StackCache, Caches, move_loop, move_to_global, free_loop, free_down}

abbrev pub count : ℕ → List ℕ → ℕ
count x [] = 0
count x (y ∷ ys) = (if x == y then 1 else 0) + count x ys

-- How often a stack is in the caches or among the freed ones.
abbrev pub copies : ℕ → Caches → ℕ
copies x c = count x c.loc.stacks + count x c.glob.stacks + count x c.freed

-- No cache holds more than its array has room for.
abbrev pub Bounded : Caches → Type 0
Bounded c = (length c.loc.stacks ≤ c.loc.size) × (length c.glob.stacks ≤ c.glob.size)

move_loop-keeps :
    (until : ℕ) (xs : List ℕ) (g : StackCache)
    → length g.stacks ≤ g.size
    → ((move_loop until xs g).1.size ≡ g.size)
      × (length (move_loop until xs g).1.stacks ≤ g.size)
      × (length (move_loop until xs g).0 ≤ length xs)
      × ((x : ℕ)
          → count x (move_loop until xs g).0 + count x (move_loop until xs g).1.stacks
            ≡ count x xs + count x g.stacks)
unfolding move_loop
move_loop-keeps until [] g le = (refl, le, omega arith, λ x. refl)
move_loop-keeps until (y ∷ xs) g le =
    elim (Bool-cases (ltb (length g.stacks) g.size && ltb until (length (y ∷ xs)))) [
      | inl go ↦
          let (size, room, fewer, same) =
            move_loop-keeps until xs (record g { stacks = y ∷ g.stacks }) (ground arith) in
          rw go (size, room, omega arith, λ x. omega (arith, same x))
      | inr stop ↦ rw stop (refl, le, omega arith, λ x. refl)
    ]

pub move_to_global-keeps :
    (until : ℕ) (c : Caches)
    → Bounded c
    → Bounded (move_to_global until c)
      × ((move_to_global until c).loc.size ≡ c.loc.size)
      × ((x : ℕ) → copies x (move_to_global until c) ≡ copies x c)
unfolding move_to_global
move_to_global-keeps until c b = elim (Bool-cases (leb c.glob.size (length c.glob.stacks))) [
  | inl full ↦ rw full (b, refl, λ x. refl)
  | inr room ↦
      let (size, fits, fewer, same) = move_loop-keeps until c.loc.stacks c.glob b.1 in
      rw room ((omega arith, omega arith), refl, λ x. omega (arith, same x))
]

free_loop-keeps :
    (until : ℕ) (xs freed : List ℕ)
    → (length (free_loop until xs freed).0 ≤ length xs)
      × (length (free_loop until xs freed).0 ≤ until)
      × ((x : ℕ)
          → count x (free_loop until xs freed).0 + count x (free_loop until xs freed).1
            ≡ count x xs + count x freed)
unfolding free_loop
free_loop-keeps until [] freed = (omega arith, omega arith, λ x. refl)
free_loop-keeps until (y ∷ xs) freed = elim (Bool-cases (ltb until (length (y ∷ xs)))) [
  | inl go ↦
      let (fewer, down, same) = free_loop-keeps until xs (y ∷ freed) in
      rw go (omega arith, down, λ x. omega (arith, same x))
  | inr stop ↦ rw stop (omega arith, ground arith, λ x. refl)
]

pub free_down-keeps :
    (until : ℕ) (c : Caches)
    → Bounded c
    → Bounded (free_down until c)
      × ((free_down until c).loc.size ≡ c.loc.size)
      × (length (free_down until c).loc.stacks ≤ until)
      × ((x : ℕ) → copies x (free_down until c) ≡ copies x c)
unfolding free_down
free_down-keeps until c b =
    let (fewer, down, same) = free_loop-keeps until c.loc.stacks c.freed in
    ((omega arith, b.1), refl, down, λ x. omega (arith, same x))
