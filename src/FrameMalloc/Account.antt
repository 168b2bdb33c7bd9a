-- ===== src/FrameMalloc/Account.antt =====
-- The bytes that a worker has taken from the global pool are all accounted for.
use pracer.Base.{
  ℕ, zero, suc, ◌+◌, ◌*◌, ◌%◌, ◌≤◌, ◌<◌, ◌≡◌, ◌∙◌, sym, true, false, some, List, ◌∷◌, arith, ◌==◌,
  ltb, length, length-append, if◌then◌else◌, ap, inl, inr, Bool-cases, List-cases, eqb_refl,
}
use pracer.FrameMalloc.{
  bucket_to_size, word, max_size, Global, State, at, carve, global_alloc, allocate_one,
  allocate_batch, gc_walk, gc_bucket, move_bucket_to_global_free_list, bucket_of_size,
}
use pracer.FrameMalloc.Ops.{
  bytes_from, pop_frame, frame_malloc, put_frame, frame_free, frame, per_worker_cleanup,
  cleanup_from, global_cleanup, count_memory_in_global_list, clean, leaked,
}
use pracer.FrameMalloc.Sizes.{bucket_to_size-bounds, bucket_of_size-least}
use pracer.FrameMalloc.Bytes.{bytes_from-at, gc_walk-append, global_free_all-account}

-- Of the bytes taken from the global pool, `live` are with the program and the others in the
-- worker's free lists.
abbrev pub Accounted : State → (live : ℕ) → Type 0
Accounted s live = s.g.allocated_from_global_pool ≡ (live + bytes_from 6 0 s.l.free_list) % word

carve-counter :
    (size : ℕ) (g : Global)
    → ((carve size g).1.allocated_from_global_pool ≡ g.allocated_from_global_pool)
      × ((carve size g).1.batch_size ≡ g.batch_size)
unfolding carve
carve-counter size g = ground arith

global_alloc-counter :
    (bucket : ℕ) (g : Global)
    → ((global_alloc bucket g).1.allocated_from_global_pool
        ≡ (g.allocated_from_global_pool + bucket_to_size bucket) % word)
      × ((global_alloc bucket g).1.batch_size ≡ g.batch_size)
unfolding global_alloc
global_alloc-counter bucket g = ground arith

module _ (bucket live : ℕ) (small : bucket < 6) where
  allocate_one-Accounted : (s : State) → Accounted s live → Accounted (allocate_one bucket s) live
  unfolding allocate_one
  allocate_one-Accounted s acc = omega (
    arith,
    global_alloc-counter bucket s.g,
    bytes_from-at 6 0 bucket s.l.free_list ((global_alloc bucket s.g).0 ∷ s.l.free_list bucket)
        (omega arith) (omega arith),
    acc,
  )

  allocate_batch-Accounted :
      (fuel bytes : ℕ) (s : State)
      → Accounted s live
      → s.g.batch_size ≤ fuel + bytes
      → (s' : State) × (allocate_batch (suc fuel) bucket bytes s ≡ some s')
        × Accounted s' live
        × (p : ℕ) × (ps : List ℕ) × (s'.l.free_list bucket ≡ p ∷ ps)
  unfolding allocate_batch allocate_one
  allocate_batch-Accounted zero bytes s acc enough = (
    allocate_one bucket s,
    rw (
        let done : ltb (bytes + bucket_to_size bucket) (allocate_one bucket s).g.batch_size
            ≡ false =
          ground (arith, global_alloc-counter bucket s.g, bucket_to_size-bounds bucket small) in
        done),
    allocate_one-Accounted s acc,
    (global_alloc bucket s.g).0,
    s.l.free_list bucket,
    simp (eqb_refl),
  )
  allocate_batch-Accounted (suc fuel) bytes s acc enough =
      let (s', e, acc', p, ps, here) =
        allocate_batch-Accounted fuel (bytes + bucket_to_size bucket) (allocate_one bucket s)
          (allocate_one-Accounted s acc)
          (omega (arith, global_alloc-counter bucket s.g, bucket_to_size-bounds bucket small)) in
      elim (Bool-cases (ltb (bytes + bucket_to_size bucket) (allocate_one bucket s).g.batch_size)) [
        | inr done ↦ (
          allocate_one bucket s,
          rw done,
          allocate_one-Accounted s acc,
          (global_alloc bucket s.g).0,
          s.l.free_list bucket,
          simp (eqb_refl),
        )
        | inl more ↦ (s', rw more e, acc', p, ps, here)
      ]

  pop_one :
      (fuel : ℕ) (s : State) (p : ℕ) (ps : List ℕ)
      → Accounted s live
      → s.l.free_list bucket ≡ p ∷ ps
      → (s' : State) × (pop_frame (suc fuel) bucket s ≡ some (p, s'))
        × Accounted s' (live + bucket_to_size bucket)
  unfolding pop_frame
  pop_one fuel s p ps acc e = (
    record s { l = record (s.l) { free_list = at s.l.free_list bucket ps } },
    simp (e, pop_frame),
    omega (
      arith,
      bytes_from-at 6 0 bucket s.l.free_list ps (omega arith) (omega arith),
      ap length e,
      ap (λ k. bucket_to_size bucket * length k) e,
      acc,
    ),
  )

  pop_frame-Accounted :
      (s : State)
      → Accounted s live
      → (p : ℕ) × (s' : State) × (pop_frame 2 bucket s ≡ some (p, s'))
        × Accounted s' (live + bucket_to_size bucket)
  unfolding pop_frame
  pop_frame-Accounted s acc = elim (List-cases (s.l.free_list bucket)) [
    | inr (p, ps, e) ↦ let (s', popped, acc') = pop_one 1 s p ps acc e in (p, s', popped, acc')
    | inl e ↦
        let (s1, batch, acc1, p, ps, e1) =
          allocate_batch-Accounted s.g.batch_size 0 s acc (omega arith) in
        let (s', popped, acc') = pop_one 0 s1 p ps acc1 e1 in
        (p, s', simp (e, batch, popped, pop_frame), acc')
  ]

  gc_bucket-Accounted : (s : State) → Accounted s live → Accounted (gc_bucket bucket s) live
  unfolding gc_bucket
  gc_bucket-Accounted s acc =
      let walk =
        gc_walk (bucket_to_size bucket) (s.l.bucket_potential bucket) 0 (s.l.free_list bucket) in
      let kept : List ℕ = walk.0 in
      let freed : List ℕ = walk.1 in
      let all : length (s.l.free_list bucket) ≡ length kept + length freed =
        sym (
          ap length (
            gc_walk-append (bucket_to_size bucket) (s.l.bucket_potential bucket) 0
              (s.l.free_list bucket)))
        ∙ length-append kept freed in
      global_free_all-account freed bucket (live + bytes_from 6 0 (at s.l.free_list bucket kept))
        s.g (omega (arith, bucket_to_size-bounds bucket small))
        (omega (
          arith,
          ap (λ n. bucket_to_size bucket * n) all,
          bytes_from-at 6 0 bucket s.l.free_list kept (omega arith) (omega arith),
          acc,
        ))

  put_frame-Accounted :
      (p : ℕ) (s : State)
      → Accounted s (live + bucket_to_size bucket)
      → Accounted (put_frame bucket p s) live
  unfolding put_frame
  put_frame-Accounted p s acc = omega (
    arith,
    bytes_from-at 6 0 bucket s.l.free_list (p ∷ s.l.free_list bucket) (omega arith) (omega arith),
    acc,
  )

-- For every size up to 2048, frame_malloc with a worker returns a frame of a bucket that holds the
-- size, however empty the lists are. If the bytes taken from the global pool were those with the
-- program and those in the worker's lists, they are so again, with the bytes of the bucket now
-- with the program.
pub frame_malloc-Accounted :
    (size live : ℕ) (s : State)
    → size ≤ max_size
    → Accounted s live
    → (bucket : ℕ) × (mem : ℕ) × (s' : State) × (frame_malloc true size s
        ≡ some (frame bucket mem, s'))
      × (size ≤ bucket_to_size bucket)
      × Accounted s' (live + bucket_to_size bucket)
unfolding frame_malloc
frame_malloc-Accounted size live s le acc =
    let (bucket, found, small, fits, first) = bucket_of_size-least size le in
    let (mem, s', popped, acc') = pop_frame-Accounted bucket live small s acc in
    let not_large : ltb max_size size ≡ false = ground arith in
    (bucket, mem, s', simp (not_large, found, popped), fits, acc')

-- frame_free of a size up to 2048 returns, and takes the bytes of the size's bucket from those
-- with the program, whether it keeps the frame or cuts the worker's list back: the bytes taken
-- from the global pool are again those with the program and those in the worker's lists.
pub frame_free-Accounted :
    (size bucket live p : ℕ) (s : State)
    → size ≤ max_size
    → bucket_of_size size ≡ some bucket
    → Accounted s (live + bucket_to_size bucket)
    → (s' : State) × (frame_free true p size s ≡ some s') × Accounted s' live
unfolding frame_free
frame_free-Accounted size bucket live p s le found acc =
    let (b, found', small', fits, first) = bucket_of_size-least size le in
    let same : b ≡ bucket = ground arith in
    let small : bucket < 6 = omega arith in
    let not_large : ltb max_size size ≡ false = ground arith in
    let put : Accounted (put_frame bucket p s) live =
      put_frame-Accounted bucket live small p s acc in
    elim (Bool-cases (
      ltb (put_frame bucket p s).g.potential_limit
        ((put_frame bucket p s).l.bucket_potential bucket))) [
          | inl over ↦ (
            gc_bucket bucket (put_frame bucket p s),
            simp (not_large, found, over),
            gc_bucket-Accounted bucket live small (put_frame bucket p s) put,
          )
          | inr under ↦ (put_frame bucket p s, simp (not_large, found, under), put)
        ]

cleanup_from-account :
    (rounds i live : ℕ) (s : State)
    → i + rounds ≤ 6
    → s.g.allocated_from_global_pool ≡ (live + bytes_from rounds i s.l.free_list) % word
    → (cleanup_from rounds i s).g.allocated_from_global_pool ≡ live % word
unfolding cleanup_from bytes_from move_bucket_to_global_free_list
cleanup_from-account zero i live s le acc = omega (arith, acc)
cleanup_from-account (suc rounds) i live s le acc =
    cleanup_from-account rounds (i + 1) live (move_bucket_to_global_free_list i s) (omega arith) (
      global_free_all-account (s.l.free_list i) i (live + bytes_from rounds (i + 1) s.l.free_list)
        s.g (omega (arith, bucket_to_size-bounds i (omega arith))) (omega (arith, acc)))

per_worker_cleanup-account :
    (live : ℕ) (s : State)
    → Accounted s live
    → (per_worker_cleanup s).g.allocated_from_global_pool ≡ live % word
unfolding per_worker_cleanup
per_worker_cleanup-account live s acc = cleanup_from-account 6 0 live s (omega arith) acc

-- When the worker has given its lists back, and with the leak check on, global_cleanup reports a
-- leak exactly if the program still holds bytes of frames, of which there are less than 2 ^ 64.
-- The condition is that no more bytes are in the global lists than were taken from the operating
-- system, as otherwise the corruption check fires first.
pub global_cleanup-leaked :
    (live : ℕ) (s : State)
    → Accounted s live
    → live < word
    → (per_worker_cleanup s).g.check_for_leaks ≡ true
    → count_memory_in_global_list (per_worker_cleanup s).g
      ≤ (per_worker_cleanup s).g.allocated_from_os
    → (global_cleanup (per_worker_cleanup s).g).0 ≡ (if live == 0 then clean else leaked)
unfolding global_cleanup
global_cleanup-leaked live s acc small check sound =
    let given : (per_worker_cleanup s).g.allocated_from_global_pool ≡ live =
      per_worker_cleanup-account live s acc ∙ omega arith in
    let sane : ltb (per_worker_cleanup s).g.allocated_from_os
          (count_memory_in_global_list (per_worker_cleanup s).g)
        ≡ false =
      ground arith in
    elim (Bool-cases (live == 0)) [
      | inl h ↦ simp (check, sane, given, h)
      | inr h ↦ simp (check, sane, given, h)
    ]
