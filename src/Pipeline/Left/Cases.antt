-- ===== src/Pipeline/Left/Cases.antt =====
-- What getLeftDependency returns for any stages of the iteration before, in order or not.
use pracer.Base.{
  ℕ, zero, suc, ◌+◌, ◌-◌, ◌≤◌, ◌<◌, ◌≡◌, refl, ap, some, List, [], ◌∷◌, drop, length, length-drop,
  ◌==◌, ltb, arith, Bool-cases, ◌⊎◌, inl, inr,
}
use pracer.Pipeline.Items.{Items, get}
use pracer.Pipeline.Strands.{StageFrame, stages_from}
use pracer.Pipeline.Left.{left_loop, later_of, get_left_dependency}

-- Either it passes no stage, and returns `i_pre`, or it returns the last of those that it passes.
abbrev pub Passed : (index i_pre bound : ℕ) → ℕ × ℕ → Type 0
Passed index i_pre bound (left, index') =
    ((left ≡ i_pre) × (index' ≡ index)) ⊎ ((index ≤ left) × (left < bound) × (index' ≡ suc left))

wider :
    (index i_pre bound : ℕ) (r : ℕ × ℕ)
    → suc index ≤ bound
    → Passed (suc index) index bound r
    → Passed index i_pre bound r
wider index i_pre bound (left, index') lt (inl (e, e')) =
    inr (omega arith, omega arith, omega arith)
wider index i_pre bound (left, index') lt (inr (from, within, e)) = inr (omega arith, within, e)

left_loop-Passed :
    (stage : ℕ) (l : List ℕ) (index i_pre bound : ℕ)
    → i_pre < index
    → index + length l ≤ bound
    → Passed index i_pre bound (later_of (left_loop stage l index i_pre))
unfolding left_loop
left_loop-Passed stage [] index i_pre bound lt le = inl (ground arith, refl)
left_loop-Passed stage (s ∷ rest) index i_pre bound lt le = elim (Bool-cases (s == stage)) [
  | inl same ↦ rw same (inr (ground arith, ground arith, ground arith))
  | inr other ↦ elim (Bool-cases (ltb s stage)) [
    | inl before ↦
        rw (other, before)
          (wider index i_pre bound _ (omega arith)
            (left_loop-Passed stage rest (suc index) index bound (omega arith) (omega arith)))
    | inr after ↦ rw (other, after) (inl (ground arith, refl))
  ]
]

within_count :
    (index i_pre size bound : ℕ) (r : ℕ × ℕ)
    → size ≤ bound
    → Passed index i_pre (index + (size - index)) r
    → Passed index i_pre bound r
within_count index i_pre size bound (left, index') le (inl e) = inl e
within_count index i_pre size bound (left, index') le (inr (from, within, e)) =
    inr (from, omega arith, e)

pub get_left_dependency-Passed :
    (l : List ℕ) (index stage : ℕ)
    → 0 < index
    → Passed index 0 (length l) (get_left_dependency l index stage)
unfolding get_left_dependency
get_left_dependency-Passed l index stage pos =
    within_count index 0 (length l) (length l) _ (omega arith)
      (left_loop-Passed stage (drop index l) index 0 _ pos (omega (arith, length-drop index l)))

-- The values of a function at n numbers in a row.
abbrev pub tab : (ℕ → ℕ) → (from n : ℕ) → List ℕ
tab number from zero = []
tab number from (suc n) = number from ∷ tab number (suc from) n

pub length-tab : (number : ℕ → ℕ) (from n : ℕ) → length (tab number from n) ≡ n
length-tab number from zero = refl
length-tab number from (suc n) = ap suc (length-tab number (suc from) n)

-- The stage numbers of frames that are all within the list.
pub stages_from-tab :
    (l : Items StageFrame) (frame : ℕ → StageFrame) (from n : ℕ)
    → ((k : ℕ) → k < from + n → get l k ≡ some (frame k))
    → stages_from l from n ≡ some (tab (λ k. (frame k).stage_num) from n)
stages_from-tab l frame from zero at = refl
stages_from-tab l frame from (suc n) at =
    rw (at from (omega arith), stages_from-tab l frame (suc from) n (λ k lt. at k (omega arith)))
      refl
