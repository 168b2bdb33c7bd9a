-- ===== src/Tests/Frames.antt =====
-- A worker that starts on an empty pool.
use pracer.Base.{List, ◌∷◌, ◌*◌, ◌+◌, ℕ, [], ◌≤◌, ◌≡◌, ◌⊎◌, refl, true, some, arith}
use pracer.FrameMalloc.{
  global_alloc, at, bucket_to_size, State, bucket_of_size, move_bucket_to_global_free_list,
}
use pracer.FrameMalloc.Ops.{
  frame_malloc, frame_free, frame, bytes_from, global_init, per_worker_init, per_worker_cleanup,
  global_cleanup, clean, count_memory_in_global_list,
}
use pracer.FrameMalloc.Pool.{InPool, global_alloc-inside}
use pracer.FrameMalloc.Account.{
  Accounted, frame_malloc-Accounted, frame_free-Accounted, global_cleanup-leaked,
}

abbrev start : State
start = record { g = global_init (λ k. 4096 + 65536 * k); l = per_worker_init }

start-Accounted : Accounted start 0
unfolding global_init per_worker_init bytes_from
start-Accounted = refl

frame_malloc-Accounted_example :
    (bucket : ℕ) × (mem : ℕ) × (s' : State) × (frame_malloc true 100 start
      ≡ some (frame bucket mem, s'))
    × (100 ≤ bucket_to_size bucket)
    × Accounted s' (0 + bucket_to_size bucket)
frame_malloc-Accounted_example = frame_malloc-Accounted 100 0 start (omega arith) start-Accounted

-- A frame of bucket 1 that came from the pool.
abbrev taken : State
taken = record start { g = record (start.g) { allocated_from_global_pool = 128 } }

taken-Accounted : Accounted taken 128
unfolding global_init per_worker_init bytes_from
taken-Accounted = refl

frame_free-Accounted_example :
    (s' : State) × (frame_free true 4096 100 taken ≡ some s') × Accounted s' 0
unfolding bucket_of_size
frame_free-Accounted_example =
    frame_free-Accounted 100 1 0 4096 taken (omega arith) refl taken-Accounted

global_cleanup-leaked_example : (global_cleanup (per_worker_cleanup start).g).0 ≡ clean
unfolding global_init per_worker_init per_worker_cleanup move_bucket_to_global_free_list
    count_memory_in_global_list
global_cleanup-leaked_example =
    global_cleanup-leaked 0 start start-Accounted (omega arith) refl (omega arith)

global_alloc-inside_example :
    ((ps : List ℕ) × (start.g.global_free_list 1 ≡ (global_alloc 1 start.g).0 ∷ ps)
      × ((global_alloc 1 start.g).1.global_free_list ≡ at start.g.global_free_list 1 ps)
      × ((global_alloc 1 start.g).1.pool_begin ≡ start.g.pool_begin)
      × ((global_alloc 1 start.g).1.pool_end ≡ start.g.pool_end))
    ⊎ ((start.g.global_free_list 1 ≡ [])
        × InPool (bucket_to_size 1) start.g (global_alloc 1 start.g))
unfolding global_init
global_alloc-inside_example = global_alloc-inside 1 start.g (omega arith) (omega arith)
