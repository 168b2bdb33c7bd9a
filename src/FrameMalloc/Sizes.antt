-- ===== src/FrameMalloc/Sizes.antt =====
-- The size classes.
use pracer.Base.{
  ℕ, zero, suc, ◌-◌, ◌⊎◌, inl, inr, Bool-cases, ◌≤◌, ◌<◌, ◌≡◌, refl, true, false, some, arith, ltb,
  leb,
}
use pracer.FrameMalloc.{bucket_to_size, bucket_of_size, max_size}
use pracer.FrameMalloc.Ops.{frame_malloc_roundup}

-- bucket_of_size finds the smallest bucket that holds the size, for every size up to 2048.
pub bucket_of_size-least :
    (size : ℕ)
    → size ≤ max_size
    → (bucket : ℕ) × (bucket_of_size size ≡ some bucket)
      × (bucket < 6)
      × (size ≤ bucket_to_size bucket)
      × ((bucket ≡ 0) ⊎ (bucket_to_size (bucket - 1) < size))
unfolding bucket_of_size
bucket_of_size-least size le = elim (Bool-cases (leb size 64)) [
  | inl h ↦ (0, rw h, omega arith, ground (arith, h), inl refl)
  | inr n0 ↦ elim (Bool-cases (leb size 128)) [
    | inl h ↦ (1, rw (n0, h), omega arith, ground (arith, h), inr (ground (arith, n0)))
    | inr n1 ↦ elim (Bool-cases (leb size 256)) [
      | inl h ↦ (2, rw (n0, n1, h), omega arith, ground (arith, h), inr (ground (arith, n1)))
      | inr n2 ↦ elim (Bool-cases (leb size 512)) [
        | inl h ↦ (3, rw (n0, n1, n2, h), omega arith, ground (arith, h), inr (ground (arith, n2)))
        | inr n3 ↦ elim (Bool-cases (leb size 1024)) [
          | inl h ↦
              (4, rw (n0, n1, n2, n3, h), omega arith, ground (arith, h), inr (ground (arith, n3)))
          | inr n4 ↦ (
            5,
            rw (n0, n1, n2, n3, n4, (let h : leb size 2048 ≡ true = ground arith in h)),
            omega arith,
            omega arith,
            inr (ground (arith, n4)),
          )
        ]
      ]
    ]
  ]
]

bucket_of_bucket : (b : ℕ) → b < 6 → bucket_of_size (bucket_to_size b) ≡ some b
unfolding bucket_of_size
bucket_of_bucket zero h = refl
bucket_of_bucket (suc zero) h = refl
bucket_of_bucket (suc (suc zero)) h = refl
bucket_of_bucket (suc (suc (suc zero))) h = refl
bucket_of_bucket (suc (suc (suc (suc zero)))) h = refl
bucket_of_bucket (suc (suc (suc (suc (suc zero))))) h = refl
bucket_of_bucket (suc (suc (suc (suc (suc (suc b)))))) h = absurd (omega arith)

pub bucket_to_size-bounds :
    (b : ℕ) → b < 6 → (64 ≤ bucket_to_size b) × (bucket_to_size b ≤ max_size)
bucket_to_size-bounds zero h = omega arith
bucket_to_size-bounds (suc zero) h = omega arith
bucket_to_size-bounds (suc (suc zero)) h = omega arith
bucket_to_size-bounds (suc (suc (suc zero))) h = omega arith
bucket_to_size-bounds (suc (suc (suc (suc zero)))) h = omega arith
bucket_to_size-bounds (suc (suc (suc (suc (suc zero))))) h = omega arith
bucket_to_size-bounds (suc (suc (suc (suc (suc (suc b)))))) h = absurd (omega arith)

-- Rounding a size up never makes it smaller, and rounding the result again changes nothing.
pub frame_malloc_roundup-idempotent :
    (size : ℕ)
    → (rounded : ℕ) × (frame_malloc_roundup size ≡ some rounded)
      × (size ≤ rounded)
      × (frame_malloc_roundup rounded ≡ some rounded)
unfolding frame_malloc_roundup
frame_malloc_roundup-idempotent size = elim (Bool-cases (ltb max_size size)) [
  | inl big ↦ (size, rw big, omega arith, rw big)
  | inr fits ↦
      let (b, found, small, le, first) = bucket_of_size-least size (ground arith) in
      let stays : ltb max_size (bucket_to_size b) ≡ false =
        ground (arith, bucket_to_size-bounds b small) in
      (bucket_to_size b, rw (fits, found), le, rw (stays, bucket_of_bucket b small))
]
