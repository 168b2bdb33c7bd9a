-- ===== src/Detector/Memory/Grains.antt =====
-- The loop over the grains of an access, slot by slot.
use pracer.Base.{
  ℕ, zero, suc, ◌+◌, ◌≡◌, ◌≢◌, ◌∙◌, refl, sym, Bool, true, false, ◌&&◌, ◌==◌, ltb, leb,
  if◌then◌else◌, arith, inl, inr, Bool-cases, eqb_refl,
}
use pracer.Detector.Slot.{Slot}
use pracer.Detector.Shadow.{put}
use pracer.Detector.Memory.{each_grain}

-- Whether j is one of n indices from i on.
abbrev pub in_range : (n i j : ℕ) → Bool
in_range n i j = leb i j && ltb j (i + n)

pub in_range_none : (i j : ℕ) → in_range 0 i j ≡ false
in_range_none i j = ground arith

in_range_next : (n i j : ℕ) → j ≢ i → in_range (suc n) i j ≡ in_range n (suc i) j
in_range_next n i j ne = ground arith

in_range_first : (n i : ℕ) → in_range (suc n) i i ≡ true
in_range_first n i = ground arith

in_range_past : (n i : ℕ) → in_range n (suc i) i ≡ false
in_range_past n i = ground arith

module _ (f : Slot → Bool × Slot) where
  -- A slot in the range has been visited once, any other not at all.
  pub each_grain-slot :
      (n i : ℕ) (slots : ℕ → Slot) (j : ℕ)
      → (each_grain f n i slots).1 j ≡ (if in_range n i j then (f (slots j)).1 else slots j)
  unfolding each_grain
  each_grain-slot zero i slots j = rw (in_range_none i j) refl
  each_grain-slot (suc n) i slots j =
      each_grain-slot n (suc i) (put i (f (slots i)).1 slots) j ∙ elim (Bool-cases (j == i)) [
        | inl same ↦
            let e : j ≡ i = ground arith in
            rw (e, eqb_refl i, in_range_past n i, in_range_first n i) refl
        | inr other ↦ rw (other, in_range_next n i j (ground arith)) refl
      ]

  -- What the loop finds is what it finds at some slot of the range.
  pub each_grain-found :
      (n i : ℕ) (slots : ℕ → Slot)
      → (each_grain f n i slots).0 ≡ true
      → (j : ℕ) × (in_range n i j ≡ true) × ((f (slots j)).0 ≡ true)
  unfolding each_grain
  each_grain-found zero i slots found = cc
  each_grain-found (suc n) i slots found = elim (Bool-cases (f (slots i)).0) [
    | inl here ↦ (i, in_range_first n i, here)
    | inr calm ↦
        let slots' = put i (f (slots i)).1 slots in
        let (j, inside, later) = each_grain-found n (suc i) slots' (rw calm at found) in
        let ne : (j == i) ≡ false = ground arith in (j, ground arith, rw ne at later)
  ]

  pub found-each_grain :
      (n i : ℕ) (slots : ℕ → Slot) (j : ℕ)
      → in_range n i j ≡ true
      → (f (slots j)).0 ≡ true
      → (each_grain f n i slots).0 ≡ true
  unfolding each_grain
  found-each_grain zero i slots j inside found = cc (in_range_none i j)
  found-each_grain (suc n) i slots j inside found = elim (Bool-cases (j == i)) [
    | inl same ↦
        let e : j ≡ i = ground arith in
        let here : (f (slots i)).0 ≡ true = rw (← e) found in rw here refl
    | inr other ↦
        let slots' = put i (f (slots i)).1 slots in
        let later =
          found-each_grain n (suc i) slots' j (sym (in_range_next n i j (ground arith)) ∙ inside)
            (rw other found) in
        rw later (ground arith)
  ]
