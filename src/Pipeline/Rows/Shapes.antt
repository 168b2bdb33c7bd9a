-- ===== src/Pipeline/Rows/Shapes.antt =====
-- The two ways in which the rows of a pipeline grow.
use pracer.Base.{ℕ, suc, ◌≤◌, ◌≡◌, false, ◌==◌, if◌then◌else◌, eqb_refl, refl, arith}
use pracer.Pipeline.Rows.{Shape}
use pracer.Pipeline.Rows.Grow.{Grown}

-- The next row begins, with one strand.
abbrev pub opened : Shape → Shape
opened g = record {
  count = suc g.count;
  len = λ j. if j == suc g.count then 1 else g.len j;
  cursor = λ j. if j == suc g.count then 1 else g.cursor j;
}

-- Row i gets one more strand, and looks next at the stage `cursor`.
abbrev pub extended : (i cursor : ℕ) → Shape → Shape
extended i cursor g = record g {
  len = λ j. if j == i then suc (g.len i) else g.len j;
  cursor = λ j. if j == i then cursor else g.cursor j;
}

below_suc : (j n : ℕ) → (j == suc n) ≡ false → j ≤ suc n → j ≤ n
below_suc j n ne le = ground arith

pub opened-Grown : (g : Shape) → Grown g (opened g) (suc g.count) 0
opened-Grown g = record {
  row = omega arith;
  counted = omega arith;
  before = λ m lt. absurd (omega arith);
  len_here = rw (eqb_refl (suc g.count)) refl;
  len_before = λ lt. absurd (omega arith);
  len_other = λ j ne. rw ne refl;
  cursor_other = λ j ne. rw ne refl;
  count_other = λ j ne le. below_suc j g.count ne le;
}

pub extended-Grown :
    (g : Shape) (i cursor : ℕ) → 1 ≤ i → i ≤ g.count → Grown g (extended i cursor g) i (g.len i)
extended-Grown g i cursor first last = record {
  row = first;
  counted = last;
  before = λ m lt. (first, last, lt);
  len_here = rw (eqb_refl i) refl;
  len_before = λ _. refl;
  len_other = λ j ne. rw ne refl;
  cursor_other = λ j ne. rw ne refl;
  count_other = λ j ne le. le;
}
