-- ===== src/FrameMalloc/Bytes.antt =====
-- The bytes in free lists, and what the moves between the lists do to them.
use pracer.Base.{
  ℕ, zero, suc, ◌+◌, ◌-◌, ◌*◌, ◌%◌, ◌≤◌, ◌<◌, ◌≡◌, ◌≢◌, refl, List, [], ◌∷◌, ◌++◌, arith, ◌==◌, inl,
  inr, ltb, length, ap, Bool-cases,
}
use pracer.FrameMalloc.{
  bucket_to_size, word, max_size, Global, at, gc_walk, global_free, global_free_all,
}
use pracer.FrameMalloc.Ops.{bytes_from}

bytes_from-outside :
    (rounds i bucket : ℕ) (f : ℕ → List ℕ) (v : List ℕ)
    → bucket < i
    → bytes_from rounds i (at f bucket v) ≡ bytes_from rounds i f
unfolding bytes_from
bytes_from-outside zero i bucket f v lt = refl
bytes_from-outside (suc rounds) i bucket f v lt =
    ground (arith, bytes_from-outside rounds (i + 1) bucket f v (omega arith))

-- A new list in one bucket changes the total by the difference of the two lists.
pub bytes_from-at :
    (rounds i bucket : ℕ) (f : ℕ → List ℕ) (v : List ℕ)
    → i ≤ bucket
    → bucket < i + rounds
    → bytes_from rounds i (at f bucket v) + bucket_to_size bucket * length (f bucket)
      ≡ bytes_from rounds i f + bucket_to_size bucket * length v
unfolding bytes_from
bytes_from-at zero i bucket f v le lt = absurd (omega arith)
bytes_from-at (suc rounds) i bucket f v le lt = elim (Bool-cases (i == bucket)) [
  | inl here ↦
      let e : i ≡ bucket = ground arith in
      rw here (
        omega (
          arith,
          bytes_from-outside rounds (i + 1) bucket f v (omega arith),
          ap (λ b. bucket_to_size b * length (f b)) e,
          ap (λ b. bucket_to_size b * length v) e,
        ))
  | inr later ↦
      let ne : i ≢ bucket = ground arith in
      rw later (omega (arith, bytes_from-at rounds (i + 1) bucket f v (omega arith) (omega arith)))
]

-- gc_bucket cuts the list in two.
pub gc_walk-append :
    (size pot newpot : ℕ) (ps : List ℕ)
    → (gc_walk size pot newpot ps).0 ++ (gc_walk size pot newpot ps).1 ≡ ps
unfolding gc_walk
gc_walk-append size pot newpot [] = refl
gc_walk-append size pot newpot (p ∷ ps) = elim (Bool-cases (ltb (2 * newpot % word) pot)) [
  | inl more ↦ rw more (ap (λ l. p ∷ l) (gc_walk-append size pot (newpot + size) ps))
  | inr done ↦ rw done
]

take_back :
    (a x size n : ℕ)
    → size ≤ max_size
    → a ≡ (x + size * suc n) % word
    → (a + word - size) % word ≡ (x + size * n) % word
take_back a x size n le e = omega arith

-- What global_free_all gives back is no longer counted.
pub global_free_all-account :
    (qs : List ℕ) (bucket x : ℕ) (g : Global)
    → bucket_to_size bucket ≤ max_size
    → g.allocated_from_global_pool ≡ (x + bucket_to_size bucket * length qs) % word
    → (global_free_all qs bucket g).allocated_from_global_pool ≡ x % word
unfolding global_free_all
global_free_all-account [] bucket x g le e = omega arith
global_free_all-account (q ∷ qs) bucket x g le e =
    global_free_all-account qs bucket x (global_free q bucket g) le
      (take_back g.allocated_from_global_pool x (bucket_to_size bucket) (length qs) le e)
