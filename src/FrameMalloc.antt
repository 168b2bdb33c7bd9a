-- ===== src/FrameMalloc.antt =====
-- batched-piper/runtime/frame_malloc.c: a pool of frames in six sizes, one free list a size in each
-- worker and one in the global pool. A free list, which the C code threads through the frames
-- themselves, is the list of their addresses. One worker runs; the locks around the global pool are
-- not modelled here.
pub mod Ops
pub mod Sizes
pub mod Bytes
pub mod Account
pub mod Pool
use pracer.Base.{
  ℕ, zero, suc, ◌+◌, ◌-◌, ◌*◌, ◌%◌, ◌^◌, Bool, Option, none, some, List, [], ◌∷◌, ◌==◌, ltb, leb,
  if◌then◌else◌, length,
}

abbrev pub nbuckets : ℕ
nbuckets = 6

abbrev pub max_size : ℕ
max_size = 2048

abbrev pub chunk_size : ℕ
chunk_size = 32 * 1024 - 128

-- __cilkrts_bucket_sizes.
abbrev pub bucket_to_size : ℕ → ℕ
bucket_to_size bucket = 64 * 2 ^ bucket

abbrev pub word : ℕ
word = 2 ^ 64

-- `chunks k` is the address of chunk `k`, counted from 0, that __cilkrts_malloc returns; an allocator
-- that runs out of memory, which the C code does not check for, is not modelled.
pub record Global : Type 0 where
  pub check_for_leaks : Bool
  pub pool_list : List ℕ
  pub pool_begin : ℕ
  pub pool_end : ℕ
  pub global_free_list : ℕ → List ℕ
  pub batch_size : ℕ
  pub potential_limit : ℕ
  pub allocated_from_os : ℕ
  pub allocated_from_global_pool : ℕ
  pub wasted : ℕ
  pub chunks : ℕ → ℕ

-- The members of a worker's local_state that the allocator owns.
pub record Local : Type 0 where
  pub free_list : ℕ → List ℕ
  pub bucket_potential : ℕ → ℕ

pub record State : Type 0 where
  pub g : Global
  pub l : Local

module _ {A : Type 0} where
  abbrev pub at : (ℕ → A) → ℕ → A → ℕ → A
  at f bucket v i = if i == bucket then v else f i

unfoldable pub extend_global_pool : Global → Global
extend_global_pool g =
    let c = g.chunks (length g.pool_list) in
    record g {
      pool_begin = c;
      pool_end = c + chunk_size;
      allocated_from_os = (g.allocated_from_os + chunk_size) % word;
      pool_list = c ∷ g.pool_list;
    }

-- The rest of a chunk that is too small for a frame is wasted. The assertion before it,
-- pool_begin <= pool_end, holds of every pool that these functions build from an empty one.
unfoldable pub carve : ℕ → Global → ℕ × Global
unfolding extend_global_pool
carve size g =
    let g' =
      if ltb g.pool_end (g.pool_begin + size)
      then extend_global_pool
          (record g { wasted = (g.wasted + (g.pool_end - g.pool_begin)) % word })
      else g in
    (g'.pool_begin, record g' { pool_begin = g'.pool_begin + size })

unfoldable pub global_alloc : ℕ → Global → ℕ × Global
unfolding carve
global_alloc bucket g =
    let size = bucket_to_size bucket in
    let g' = record g {
      allocated_from_global_pool = (g.allocated_from_global_pool + size) % word;
    } in
    elim (g.global_free_list bucket) [
      | [] ↦ carve size g'
      | p ∷ ps ↦ (p, record g' { global_free_list = at g.global_free_list bucket ps })
    ]

unfoldable pub global_free : ℕ → ℕ → Global → Global
global_free mem bucket g = record g {
  allocated_from_global_pool = (g.allocated_from_global_pool + word - bucket_to_size bucket) % word;
  global_free_list = at g.global_free_list bucket (mem ∷ g.global_free_list bucket);
}

-- The frames of a list go back to the global pool, the first one first.
unfoldable pub global_free_all : List ℕ → ℕ → Global → Global
unfolding global_free
global_free_all [] bucket g = g
global_free_all (q ∷ qs) bucket g = global_free_all qs bucket (global_free q bucket g)

-- One round of the loop of allocate_batch.
unfoldable pub allocate_one : ℕ → State → State
unfolding global_alloc
allocate_one bucket s =
    let (mem, g) = global_alloc bucket s.g in
    record {
      g = g;
      l = record {
        free_list = at s.l.free_list bucket (mem ∷ s.l.free_list bucket);
        bucket_potential =
            at s.l.bucket_potential bucket
              ((s.l.bucket_potential bucket + bucket_to_size bucket) % word);
      };
    }

-- do … while (bytes_allocated < batch_size), on fuel.
unfoldable pub allocate_batch : ℕ → (bucket bytes_allocated : ℕ) → State → Option State
allocate_batch zero bucket bytes_allocated s = none
allocate_batch (suc fuel) bucket bytes_allocated s =
    let s' = allocate_one bucket s in
    let bytes = bytes_allocated + bucket_to_size bucket in
    let rest = allocate_batch fuel bucket bytes s' in
    if ltb bytes s'.g.batch_size then rest else some s'

-- What gc_bucket keeps of a free list, what it frees, and the new potential. It stops at the first
-- frame at which half of the potential is counted, and keeps that frame too.
unfoldable pub gc_walk : (size pot newpot : ℕ) → List ℕ → List ℕ × List ℕ × ℕ
gc_walk size pot newpot [] = ([], [], newpot)
gc_walk size pot newpot (p ∷ ps) =
    let (kept, freed, last) = gc_walk size pot (newpot + size) ps in
    if ltb (2 * newpot % word) pot then (p ∷ kept, freed, last) else (p ∷ [], ps, newpot)

unfoldable pub gc_bucket : ℕ → State → State
unfolding gc_walk global_free_all
gc_bucket bucket s =
    let size = bucket_to_size bucket in
    let (kept, freed, newpot) =
      gc_walk size (s.l.bucket_potential bucket) 0 (s.l.free_list bucket) in
    record {
      g = global_free_all freed bucket s.g;
      l = record {
        free_list = at s.l.free_list bucket kept;
        bucket_potential = at s.l.bucket_potential bucket newpot;
      };
    }

-- The worker's list is walked by a copy of its head, which itself keeps pointing to the first
-- frame. global_free links that frame into the global list, so that the worker's list is then no
-- list of its own any more; the worker is destroyed after this, and `free_list` is not read again.
unfoldable pub move_bucket_to_global_free_list : ℕ → State → State
unfolding global_free_all
move_bucket_to_global_free_list bucket s = record {
  g = global_free_all (s.l.free_list bucket) bucket s.g;
  l = record (s.l) { bucket_potential = at s.l.bucket_potential bucket 0 };
}

-- The first bucket of at least this size; `none` is the assertion behind the loop.
unfoldable pub bucket_from : (rounds i size : ℕ) → Option ℕ
bucket_from zero i size = none
bucket_from (suc rounds) i size =
    let rest = bucket_from rounds (i + 1) size in
    if leb size (bucket_to_size i) then some i else rest

unfoldable pub bucket_of_size : ℕ → Option ℕ
unfolding bucket_from
bucket_of_size size = bucket_from nbuckets 0 size
