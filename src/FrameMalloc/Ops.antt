-- ===== src/FrameMalloc/Ops.antt =====
-- The entry points of batched-piper/runtime/frame_malloc.c.
use pracer.Base.{
  ℕ, zero, suc, ◌+◌, ◌*◌, ◌%◌, Bool, true, not, ◌&&◌, ◌||◌, Option, none, some, List, [], ◌∷◌, ◌==◌,
  ltb, if◌then◌else◌, length,
}
use pracer.FrameMalloc.{
  nbuckets, max_size, bucket_to_size, word, Global, Local, State, at, allocate_batch, gc_bucket,
  move_bucket_to_global_free_list, bucket_of_size,
}

unfoldable pub frame_malloc_roundup : ℕ → Option ℕ
frame_malloc_roundup size =
    if ltb max_size size
    then some size
    else elim (bucket_of_size size) [ none ↦ none | some bucket ↦ some (bucket_to_size bucket) ]

unfoldable pub size_of_bucket : ℕ → Option ℕ
size_of_bucket bucket = if ltb bucket nbuckets then some (bucket_to_size bucket) else none

-- A frame, or memory that __cilkrts_malloc gives and __cilkrts_free takes back.
pub data Memory : Type 0 where
  large : Memory
  frame : (bucket mem : ℕ) → Memory

-- while (!(mem = pop(free_list))) allocate_batch(…), on fuel.
unfoldable pub pop_frame : ℕ → (bucket : ℕ) → State → Option (ℕ × State)
pop_frame zero bucket s = none
pop_frame (suc fuel) bucket s = elim (s.l.free_list bucket) [
  | p ∷ ps ↦ some (p, record s { l = record (s.l) { free_list = at s.l.free_list bucket ps } })
  | [] ↦ elim (allocate_batch (suc s.g.batch_size) bucket 0 s) [
    | none ↦ none
    | some s' ↦ pop_frame fuel bucket s'
  ]
]

-- `has_worker` is false where the worker is NULL.
unfoldable pub frame_malloc : (has_worker : Bool) → (size : ℕ) → State → Option (Memory × State)
unfolding pop_frame
frame_malloc has_worker size s =
    if not has_worker || ltb max_size size then some (large, s) else elim (bucket_of_size size) [
      | none ↦ none
      | some bucket ↦ elim (pop_frame 2 bucket s) [
        | none ↦ none
        | some (mem, s') ↦ some (frame bucket mem, s')
      ]
    ]

-- The frame is put on the worker's list before the list is cut back.
unfoldable pub put_frame : (bucket p0 : ℕ) → State → State
put_frame bucket p0 s = record s {
  l = record {
    free_list = at s.l.free_list bucket (p0 ∷ s.l.free_list bucket);
    bucket_potential =
        at s.l.bucket_potential bucket
          ((s.l.bucket_potential bucket + bucket_to_size bucket) % word);
  };
}

unfoldable pub frame_free : (has_worker : Bool) → (p0 size : ℕ) → State → Option State
unfolding put_frame
frame_free has_worker p0 size s =
    if not has_worker || ltb max_size size then some s else elim (bucket_of_size size) [
      | none ↦ none
      | some bucket ↦
          let s' = put_frame bucket p0 s in
          some (
            if ltb s'.g.potential_limit (s'.l.bucket_potential bucket)
            then gc_bucket bucket s'
            else s')
    ]

unfoldable pub per_worker_init : Local
per_worker_init = record { free_list = λ i. []; bucket_potential = λ i. 0 }

-- for (i = bucket; i < bucket + rounds; ++i)
unfoldable pub cleanup_from : (rounds bucket : ℕ) → State → State
cleanup_from zero bucket s = s
cleanup_from (suc rounds) bucket s =
    cleanup_from rounds (bucket + 1) (move_bucket_to_global_free_list bucket s)

unfoldable pub per_worker_cleanup : State → State
unfolding cleanup_from
per_worker_cleanup s = cleanup_from nbuckets 0 s

unfoldable pub global_init : (chunks : ℕ → ℕ) → Global
global_init chunks = record {
  check_for_leaks = true;
  pool_list = [];
  pool_begin = 0;
  pool_end = 0;
  global_free_list = λ i. [];
  batch_size = 8000;
  potential_limit = 4 * 8000;
  allocated_from_os = 0;
  allocated_from_global_pool = 0;
  wasted = 0;
  chunks = chunks;
}

-- The bytes of the buckets from `bucket` on.
unfoldable pub bytes_from : (rounds bucket : ℕ) → (ℕ → List ℕ) → ℕ
bytes_from zero bucket lists = 0
bytes_from (suc rounds) bucket lists =
    bucket_to_size bucket * length (lists bucket) + bytes_from rounds (bucket + 1) lists

unfoldable pub count_memory_in_global_list : Global → ℕ
unfolding bytes_from
count_memory_in_global_list g = bytes_from nbuckets 0 g.global_free_list % word

-- __cilkrts_bug stops the program: with `corrupted` before any memory is freed, with `leaked` after.
pub data Verdict : Type 0 where
  clean corrupted leaked : Verdict

-- The second part is the chunks that are given back.
unfoldable pub global_cleanup : Global → Verdict × List ℕ
unfolding count_memory_in_global_list
global_cleanup g =
    if g.check_for_leaks && ltb g.allocated_from_os (count_memory_in_global_list g)
    then (corrupted, [])
    else if g.check_for_leaks && not (g.allocated_from_global_pool == 0)
    then (leaked, g.pool_list)
    else (clean, g.pool_list)
