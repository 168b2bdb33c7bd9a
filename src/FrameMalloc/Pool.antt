-- ===== src/FrameMalloc/Pool.antt =====
-- The pool of frame_malloc.c: which memory global_alloc hands out.
use pracer.Base.{
  ℕ, length, ◌+◌, ◌%◌, ◌≤◌, ◌<◌, ◌≡◌, refl, List, [], ◌∷◌, ◌⊎◌, inl, inr, arith, ltb, Bool-cases,
  List-cases,
}
use pracer.FrameMalloc.{
  bucket_to_size, max_size, chunk_size, word, Global, at, extend_global_pool, carve, global_alloc,
}
use pracer.FrameMalloc.Sizes.{bucket_to_size-bounds}

-- A frame of the given size is the first part of the pool's rest, which then begins behind it; or
-- the rest is too small, and the frame is the first part of a new chunk of the system.
abbrev pub InPool : ℕ → Global → ℕ × Global → Type 0
InPool size g (mem, g') =
    ((mem ≡ g.pool_begin)
      × (g'.pool_begin ≡ g.pool_begin + size)
      × (g'.pool_end ≡ g.pool_end)
      × (g'.pool_list ≡ g.pool_list)
      × (g'.pool_begin ≤ g'.pool_end))
    ⊎ ((g.pool_end < g.pool_begin + size)
        × (mem ≡ g.chunks (length g.pool_list))
        × (g'.pool_begin ≡ mem + size)
        × (g'.pool_end ≡ mem + chunk_size)
        × (g'.pool_list ≡ mem ∷ g.pool_list)
        × (g'.pool_begin ≤ g'.pool_end))

carve-inside :
    (size : ℕ) (g : Global)
    → size ≤ max_size
    → g.pool_begin ≤ g.pool_end
    → InPool size g (carve size g)
unfolding carve extend_global_pool
carve-inside size g le ok = elim (Bool-cases (ltb g.pool_end (g.pool_begin + size))) [
  | inl over ↦ rw over (inr (ground arith, refl, refl, refl, refl, omega arith))
  | inr room ↦ rw room (inl (refl, refl, refl, refl, ground arith))
]

abbrev counted : ℕ → Global → Global
counted bucket g = record g {
  allocated_from_global_pool = (g.allocated_from_global_pool + bucket_to_size bucket) % word;
}

global_alloc-listed :
    (bucket p : ℕ) (ps : List ℕ) (g : Global)
    → g.global_free_list bucket ≡ p ∷ ps
    → global_alloc bucket g
      ≡ (p, record (counted bucket g) { global_free_list = at g.global_free_list bucket ps })
unfolding global_alloc
global_alloc-listed bucket p ps g e = simp (e, global_alloc)

global_alloc-carve :
    (bucket : ℕ) (g : Global)
    → g.global_free_list bucket ≡ []
    → global_alloc bucket g ≡ carve (bucket_to_size bucket) (counted bucket g)
unfolding global_alloc
global_alloc-carve bucket g e = simp (e, global_alloc)

-- From a pool whose begin is not behind its end, global_alloc hands out the first frame of the
-- bucket's global list, and leaves the pool as it is; or, if that list is empty, it hands out the
-- first bytes of the pool's rest, as many as the bucket's size, where the rest has them, and else
-- the first bytes of a new chunk. The pool then begins right behind the frame, and its begin is not
-- behind its end, as the code asserts.
pub global_alloc-inside :
    (bucket : ℕ) (g : Global)
    → bucket < 6
    → g.pool_begin ≤ g.pool_end
    → ((ps : List ℕ) × (g.global_free_list bucket ≡ (global_alloc bucket g).0 ∷ ps)
        × ((global_alloc bucket g).1.global_free_list ≡ at g.global_free_list bucket ps)
        × ((global_alloc bucket g).1.pool_begin ≡ g.pool_begin)
        × ((global_alloc bucket g).1.pool_end ≡ g.pool_end))
      ⊎ ((g.global_free_list bucket ≡ [])
          × InPool (bucket_to_size bucket) g (global_alloc bucket g))
global_alloc-inside bucket g small ok = elim (List-cases (g.global_free_list bucket)) [
  | inr (p, ps, e) ↦ rw (global_alloc-listed bucket p ps g e) (inl (ps, e, refl, refl, refl))
  | inl e ↦
      let inside =
        carve-inside (bucket_to_size bucket) (counted bucket g)
          (omega (arith, bucket_to_size-bounds bucket small)) ok in
      rw (global_alloc-carve bucket g e) (inr (e, inside))
]
