-- ===== src/Pipeline/Left.antt =====
-- getLeftDependency of rdtool/include/piper_rd.h: the stage of the iteration before that a stage
-- waits for.
pub mod Cases
pub mod Scan
use pracer.Base.{
  ℕ, suc, ◌+◌, ◌-◌, ◌≤◌, ◌<◌, ◌≡◌, ◌∙◌, refl, List, [], ◌∷◌, drop, ◌==◌, ltb, if◌then◌else◌, arith,
  Bool-cases, inl, inr,
}

-- The loop over the stage numbers of the iteration before, from the index on: ret, i_pre and the
-- index at the end.
unfoldable pub left_loop : (stage : ℕ) → List ℕ → (index i_pre : ℕ) → ℕ × ℕ × ℕ
left_loop stage [] index i_pre = (0, i_pre, index)
left_loop stage (s ∷ rest) index i_pre =
    let further = left_loop stage rest (suc index) index in
    if s == stage
    then (index, i_pre, suc index)
    else if ltb s stage
    then further
    else (i_pre, i_pre, index)

abbrev pub later_of : ℕ × ℕ × ℕ → ℕ × ℕ
later_of (ret, i_pre, index') = (if ltb i_pre ret then ret else i_pre, index')

-- The stage that is waited for, 0 for none, and the index of the iteration for the next time.
unfoldable pub get_left_dependency : (pre : List ℕ) → (index stage : ℕ) → ℕ × ℕ
unfolding left_loop
get_left_dependency pre index stage = later_of (left_loop stage (drop index pre) index 0)

abbrev pub Above : ℕ → List ℕ → Type 0
Above m [] = Unit
Above m (s ∷ rest) = (m < s) × Above m rest

-- Stage numbers that increase.
abbrev pub Ascending : List ℕ → Type 0
Ascending [] = Unit
Ascending (s ∷ rest) = Above s rest × Ascending rest

-- How many stages are not after `stage`.
abbrev pub up_to : ℕ → List ℕ → ℕ
up_to stage [] = 0
up_to stage (s ∷ rest) = if ltb stage s then up_to stage rest else suc (up_to stage rest)

up_to-Above : (stage m : ℕ) (l : List ℕ) → stage ≤ m → Above m l → up_to stage l ≡ 0
up_to-Above stage m [] le above = refl
up_to-Above stage m (s ∷ rest) le (lt, above) = ground (arith, up_to-Above stage m rest le above)

left_loop-up_to :
    (stage : ℕ) (l : List ℕ) (index i_pre : ℕ)
    → Ascending l
    → i_pre < index
    → later_of (left_loop stage l index i_pre)
      ≡ (if up_to stage l == 0 then i_pre else index + up_to stage l - 1, index + up_to stage l)
unfolding left_loop
left_loop-up_to stage [] index i_pre asc lt = ground arith
left_loop-up_to stage (s ∷ rest) index i_pre (above, asc) lt = elim (Bool-cases (s == stage)) [
  | inl same ↦ rw same (ground (arith, up_to-Above stage s rest (ground arith) above))
  | inr other ↦ elim (Bool-cases (ltb s stage)) [
    | inl before ↦
        rw (other, before)
          (left_loop-up_to stage rest (suc index) index asc (omega arith) ∙ ground arith)
    | inr after ↦ rw (other, after) (ground (arith, up_to-Above stage s rest (ground arith) above))
  ]
]

-- In an iteration whose stages increase, the stage that is waited for is the last that is not
-- after the given one, among those from the index on; there is none where the count is 0. The
-- next search starts behind all of these, so that no stage is waited for twice.
pub get_left_dependency_last :
    (pre : List ℕ) (index stage : ℕ)
    → Ascending (drop index pre)
    → 0 < index
    → get_left_dependency pre index stage ≡ (
      if up_to stage (drop index pre) == 0 then 0 else index + up_to stage (drop index pre) - 1,
      index + up_to stage (drop index pre),
    )
unfolding get_left_dependency
get_left_dependency_last pre index stage asc pos =
    left_loop-up_to stage (drop index pre) index 0 asc pos
