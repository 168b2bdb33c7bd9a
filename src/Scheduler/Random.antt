-- ===== src/Scheduler/Random.antt =====
-- The choice of a victim in batched-piper/runtime/scheduler.c: the pseudo-random generator of a
-- worker, myrand and mysrand, and its use in random_steal.
use pracer.Base.{
  ℕ, zero, suc, ◌+◌, ◌-◌, ◌*◌, ◌%◌, ◌^◌, ◌<◌, ◌≡◌, ◌≢◌, ◌==◌, leb, if◌then◌else◌, arith, Bool-cases,
  inl, inr,
}
use native.Mathlib.Nat.{mod-lt}

abbrev pub rngmod : ℕ
rngmod = 4294967291

abbrev pub rngmul : ℕ
rngmul = 69070

-- The member rand_seed of a worker; `unsigned` has 32 bits, `unsigned long long` 64.
unfoldable pub myrand : (rand_seed : ℕ) → ℕ
myrand rand_seed = (rngmul * rand_seed) % 2 ^ 64 % rngmod % 2 ^ 32

unfoldable pub mysrand : (seed : ℕ) → ℕ
mysrand seed = let seed' = seed % rngmod in (seed' + (if seed' == 0 then 1 else 0)) % 2 ^ 32

-- The worker that random_steal chooses, of a worker with the number `self`, where no log is
-- replayed.
unfoldable pub random_victim : (self total_workers random : ℕ) → ℕ
random_victim self total_workers random =
    let n = random % (total_workers - 1) in if leb self n then n + 1 else n

-- The numbers that a worker draws.
abbrev pub drawn : (seed times : ℕ) → ℕ
drawn seed zero = mysrand seed
drawn seed (suc times) = myrand (drawn seed times)

no_zero : (s q : ℕ) → 0 < s → s < rngmod → rngmul * s ≡ rngmod * q → ⊥
no_zero s q pos lt e = omega arith

mod_small : (x : ℕ) → x < 2 ^ 64 → x % 2 ^ 64 ≡ x
mod_small x lt = omega arith

mysrand-range : (seed : ℕ) → (0 < mysrand seed) × (mysrand seed < rngmod)
unfolding mysrand
mysrand-range seed = ground arith

myrand-range : (s : ℕ) → 0 < s → s < rngmod → (0 < myrand s) × (myrand s < rngmod)
unfolding myrand
myrand-range s pos lt = (omega arith, omega arith)

drawn-range : (seed times : ℕ) → (0 < drawn seed times) × (drawn seed times < rngmod)
drawn-range seed zero = mysrand-range seed
drawn-range seed (suc times) =
    let h = drawn-range seed times in myrand-range (drawn seed times) h.0 h.1

-- However often a worker draws, from whatever seed, its random number is never 0, so that the
-- numbers to come are not all 0, and is below the modulus. With more than one worker, the victim is
-- then one of the workers, and never the thief itself.
pub random_victim_other :
    (seed times self total_workers : ℕ)
    → 1 < total_workers
    → self < total_workers
    → (let random = drawn seed times in
        (0 < random)
        × (random < rngmod)
        × (random_victim self total_workers random < total_workers)
        × (random_victim self total_workers random ≢ self))
unfolding random_victim
random_victim_other seed times self total_workers more known =
    let random = drawn seed times in
    let n = random % (total_workers - 1) in
    let below : n < total_workers - 1 = mod-lt random (omega arith) in
    let range = drawn-range seed times in
    elim (Bool-cases (leb self n)) [
      | inl past ↦ rw past (range.0, range.1, omega arith, λ e. ground arith)
      | inr before ↦ rw before (range.0, range.1, omega arith, λ e. ground arith)
    ]
