-- ===== src/Pipeline/Rows/Grow.antt =====
-- A row grows by one strand: the shapes before and after it, and where its node may stand.
use pracer.Base.{
  ℕ, suc, ◌-◌, ◌≤◌, ◌<◌, ◌≡◌, ◌∙◌, sym, ap, false, ◌==◌, Bool-cases, ltb, ltb→lt, ◌⊎◌, inl, inr,
  arith,
}
use pracer.Pipeline.Rows.{Strand, Shape, InRow, Shaped}

-- Row i has got its strand k; the other rows are as they were.
pub record Grown (g g' : Shape) (i k : ℕ) : Type 0 where
  pub row : 1 ≤ i
  pub counted : i ≤ g'.count
  pub before : (m : ℕ) → m < k → InRow g i m
  pub len_here : g'.len i ≡ suc k
  pub len_before : i ≤ g.count → g.len i ≡ k
  pub len_other : (j : ℕ) → (j == i) ≡ false → g'.len j ≡ g.len j
  pub cursor_other : (j : ℕ) → (j == i) ≡ false → g'.cursor j ≡ g.cursor j
  pub count_other : (j : ℕ) → (j == i) ≡ false → j ≤ g'.count → j ≤ g.count

-- What a strand's place has to do with the row before.
pub record LeftOf (g g' : Shape) (v : ℕ → ℕ → Strand) (i k : ℕ) : Type 0 where
  pub dep_cursor : suc (v i k).dep ≡ g'.cursor i
  pub dep_first : k ≡ 0 → (v i k).dep ≡ 0
  pub dep_bound : (j : ℕ) → i ≡ suc j → 1 ≤ j → (v i k).dep < g.len j

module _ (g g' : Shape) (i k : ℕ) (grown : Grown g g' i k) where
  -- A strand of the grown rows is an old one or the new one.
  pub old_or_new : (j m : ℕ) → InRow g' j m → InRow g j m ⊎ ((j ≡ i) × (m ≡ k))
  old_or_new j m (first, last, within) = elim (Bool-cases (j == i)) [
    | inl here ↦
        let e : j ≡ i = ground arith in
        let size : g'.len j ≡ suc k = rw e grown.len_here in
        elim (Bool-cases (ltb m k)) [
          | inl lt ↦ inl (rw e (grown.before m (ltb→lt _ _ lt)))
          | inr ge ↦ inr (e, ground (arith, size, within))
        ]
    | inr other ↦
        inl (first, grown.count_other j other last, omega (arith, grown.len_other j other, within))
  ]

  pub kept : (j m : ℕ) → InRow g j m → j ≤ g'.count → InRow g' j m
  kept j m (first, last, within) bound = elim (Bool-cases (j == i)) [
    | inl here ↦
        let e : j ≡ i = ground arith in
        let size : g'.len j ≡ suc k = rw e grown.len_here in
        let size' : g.len j ≡ k = rw e (grown.len_before (omega arith)) in
        (first, bound, omega arith)
    | inr other ↦ (first, bound, omega (arith, grown.len_other j other))
  ]

  module _ (v : ℕ → ℕ → Strand) (left : LeftOf g g' v i k) (shape : Shaped g v) where
    pub grown-Shaped : Shaped g' v
    grown-Shaped = record {
      started = λ j first last. elim (Bool-cases (j == i)) [
        | inl here ↦
            let e : j ≡ i = ground arith in
            let size : g'.len j ≡ suc k = rw e grown.len_here in omega arith
        | inr other ↦
            let from = shape.started j first (grown.count_other j other last) in
            omega (arith, grown.len_other j other)
      ];
      dep_bound = λ j m first at. elim (old_or_new (suc j) m at) [
        | inl old ↦
            let from = shape.dep_bound j m first old in
            let old_row : InRow g j (v (suc j) m).dep = (first, omega (arith, old.1), from) in
            (kept j _ old_row (omega (arith, at.1))).2
        | inr (e, e') ↦
            let from = left.dep_bound j (sym e) first in
            let same : (j == i) ≡ false = ground arith in
            let wider : (v i k).dep < g'.len j = rw (grown.len_other j same) from in
            rw (e, e') wider
      ];
      dep_cursor = λ j first last. elim (Bool-cases (j == i)) [
        | inl here ↦
            let e : j ≡ i = ground arith in
            let size' : g'.len j ≡ suc k = rw e grown.len_here in
            let size : g'.len j - 1 ≡ k = omega arith in rw (size, e) left.dep_cursor
        | inr other ↦
            rw (grown.len_other j other, grown.cursor_other j other)
              (shape.dep_cursor j first (grown.count_other j other last))
      ];
      dep_first = λ j first last. elim (Bool-cases (j == i)) [
        | inl here ↦
            let e : j ≡ i = ground arith in
            elim (Bool-cases (ltb 0 k)) [
              | inl lt ↦
                  let at = grown.before 0 (ltb→lt _ _ lt) in rw e (shape.dep_first i at.0 at.1)
              | inr none ↦
                  let e' : k ≡ 0 = ground arith in
                  rw e (ap (λ m. (v i m).dep) (sym e') ∙ left.dep_first e')
            ]
        | inr other ↦ shape.dep_first j first (grown.count_other j other last)
      ];
    }
