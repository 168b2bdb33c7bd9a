-- ===== src/Stacks.antt =====
-- batched-piper/runtime/stacks.c: the caches of free stacks, one in each worker and a global one. One
-- worker runs, so that its lock on the global cache changes nothing.
pub mod Count
pub mod Moves
use pracer.Base.{
  ℕ, ◌/◌, Bool, true, false, ◌&&◌, List, [], ◌∷◌, Option, none, some, ◌==◌, ltb, leb, length,
  if◌then◌else◌,
}

-- `stacks` holds the first `n` entries of the array, the last of them first, so that `n` is its length.
pub record StackCache : Type 0 where
  pub size : ℕ
  pub stacks : List ℕ

-- `freed` holds the stacks given to __cilkrts_free_stack, the last one first.
pub record Caches : Type 0 where
  pub loc : StackCache
  pub glob : StackCache
  pub freed : List ℕ

-- while (global->n < global->size && local->n > until)
unfoldable pub move_loop : (until : ℕ) → (xs : List ℕ) → StackCache → List ℕ × StackCache
move_loop until [] g = ([], g)
move_loop until (x ∷ xs) g =
    let rest = move_loop until xs (record g { stacks = x ∷ g.stacks }) in
    if ltb (length g.stacks) g.size && ltb until (length (x ∷ xs)) then rest else (x ∷ xs, g)

unfoldable pub move_to_global : (until : ℕ) → Caches → Caches
unfolding move_loop
move_to_global until c =
    if leb c.glob.size (length c.glob.stacks)
    then c
    else let (xs, g) = move_loop until c.loc.stacks c.glob in
      record c { loc = record (c.loc) { stacks = xs }; glob = g }

-- while (local->n > until) __cilkrts_free_stack(…)
unfoldable pub free_loop : (until : ℕ) → (xs freed : List ℕ) → List ℕ × List ℕ
free_loop until [] freed = ([], freed)
free_loop until (x ∷ xs) freed =
    let rest = free_loop until xs (x ∷ freed) in
    if ltb until (length (x ∷ xs)) then rest else (x ∷ xs, freed)

unfoldable pub free_down : (until : ℕ) → Caches → Caches
unfolding free_loop
free_down until c =
    let (xs, freed) = free_loop until c.loc.stacks c.freed in
    record c { loc = record (c.loc) { stacks = xs }; freed = freed }

abbrev pub put_local : ℕ → Caches → Caches
put_local sd c = record c { loc = record (c.loc) { stacks = sd ∷ c.loc.stacks } }

unfoldable pub push : (sd : ℕ) → Caches → Caches
unfolding move_to_global free_down
push sd c =
    let half = c.loc.size / 2 in
    if ltb (length c.loc.stacks) c.loc.size
    then put_local sd c
    else if c.loc.size == 0
    then record c { freed = sd ∷ c.freed }
    else put_local sd (free_down half (move_to_global half c))

unfoldable pub pop : Caches → Option ℕ × Caches
pop c = elim (c.loc.stacks) [
  | x ∷ xs ↦ (some x, record c { loc = record (c.loc) { stacks = xs } })
  | [] ↦ elim (c.glob.stacks) [
    | x ∷ xs ↦ (some x, record c { glob = record (c.glob) { stacks = xs } })
    | [] ↦ (none, c)
  ]
]

-- `okay_to_release` is 1 outside Windows; NULL is not released.
unfoldable pub release_stack : (sd : ℕ) → Caches → Caches
unfolding push
release_stack sd c = if sd == 0 then c else push sd c

-- `make_stack` stands for __cilkrts_make_stack.
unfoldable pub get_stack : (make_stack : ℕ) → Caches → ℕ × Caches
unfolding pop
get_stack make_stack c =
    let (found, c') = pop c in (elim found [ none ↦ make_stack | some sd ↦ sd ], c')

unfoldable pub init_stack_cache : (size : ℕ) → StackCache
init_stack_cache size = record { size = size; stacks = [] }

-- On the local cache.
unfoldable pub flush : Caches → Caches
unfolding free_down
flush c = free_down 0 c

unfoldable pub destroy_stack_cache : Caches → Caches
unfolding flush
destroy_stack_cache c = record (flush c) { loc = record { size = 0; stacks = [] } }

unfoldable pub trim_stack_cache : Caches → Caches
unfolding move_to_global free_down
trim_stack_cache c = if leb (length c.loc.stacks) 1 then c else free_down 1 (move_to_global 1 c)
