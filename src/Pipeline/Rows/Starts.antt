-- ===== src/Pipeline/Rows/Starts.antt =====
-- The place of a row's first strand, and the stage that a new strand comes after.
use pracer.Base.{ℕ, suc, ◌-◌, ◌≤◌, ◌<◌, ◌≡◌, refl, true, inl, arith}
use pracer.Pipeline.OmOrder.{OmOrder}
use pracer.Pipeline.Rows.{Strand, Shape, InRow, Shaped, RightFirst}
use pracer.Pipeline.Rows.Grow.{LeftOf}
use pracer.Pipeline.Rows.Right.{RightPlace}
use pracer.Pipeline.Rows.Places.{rights_ascend}

module _ (g g' : Shape) (v : ℕ → ℕ → Strand) (shape : Shaped g v) where
  pub first-LeftOf :
      (n : ℕ)
      → n ≡ g.count
      → (v (suc n) 0).dep ≡ 0
      → g'.cursor (suc n) ≡ 1
      → LeftOf g g' v (suc n) 0
  first-LeftOf n e dep cursor = record {
    dep_cursor = rw (dep, cursor) refl;
    dep_first = λ _. dep;
    dep_bound = λ j e' pos. rw dep (shape.started j pos (omega arith));
  }

  pub in_row-LeftOf :
      (i k : ℕ)
      → 1 ≤ i
      → i ≤ g.count
      → g.len i ≡ suc k
      → suc (v i (suc k)).dep ≡ g'.cursor i
      → g'.cursor i ≡ g.cursor i
      → LeftOf g g' v i (suc k)
  in_row-LeftOf i k first last size dep same = record {
    dep_cursor = dep;
    dep_first = λ e. absurd (omega arith);
    dep_bound = λ j e pos.
        let end_of : g.len i - 1 ≡ k = omega arith in
        let was : suc (v i k).dep ≡ g.cursor i = rw (← end_of) (shape.dep_cursor i first last) in
        let row : InRow g (suc j) k = rw (← e) (first, last, omega arith) in
        let bound : (v i k).dep < g.len j = rw e (shape.dep_bound j k pos row) in omega arith;
  }

  pub left-LeftOf :
      (i k j l : ℕ)
      → i ≡ suc j
      → l < g.len j
      → suc (v i (suc k)).dep ≡ g'.cursor i
      → g'.cursor i ≡ suc l
      → LeftOf g g' v i (suc k)
  left-LeftOf i k j l e within dep moved = record {
    dep_cursor = dep;
    dep_first = λ e. absurd (omega arith);
    dep_bound = λ j' e' pos.
        let eq : j' ≡ j = omega arith in
        let bound : (v i (suc k)).dep < g.len j = omega arith in rw eq bound;
  }

module _ {S : Type 0} (o : OmOrder S) (s : S) (g g' : Shape) (v : ℕ → ℕ → Strand)
    (shape : Shaped g v) (h : RightFirst o s g v) where
  -- The first row begins anywhere in the order.
  pub base-RightPlace : g.count ≡ 0 → o.has s (v 1 0).current ≡ true → RightPlace o s g g' v 1 0
  base-RightPlace none has = record {
    in_order = has;
    after_down = λ m e. absurd (omega arith);
    after_left = λ j e pos. absurd (omega arith);
    before_down = λ j e pos. absurd (omega arith);
    before_right = λ j x e pos. absurd (omega arith);
    before_upper = λ bound. absurd (omega arith);
  }

  -- Each later row begins behind the first strand of the row before.
  pub row-RightPlace :
      (n : ℕ)
      → n ≡ g.count
      → 1 ≤ n
      → (v (suc n) 0).dep ≡ 0
      → g'.cursor (suc n) ≡ 1
      → (v (suc n) 0).current ≡ (v n 0).right
      → RightPlace o s g g' v (suc n) 0
  row-RightPlace n e some_row dep cursor at =
      let row : InRow g n 0 = (some_row, omega arith, shape.started n some_row (omega arith)) in
      let same_row = λ (j : ℕ) (e' : suc n ≡ suc j). (let eq : j ≡ n = omega arith in eq) in
      record {
        in_order = rw at (h.in_right n 0 row);
        after_down = λ m e'. absurd (omega arith);
        after_left = λ j e' pos. rw (dep, same_row j e', at) (inl refl);
        before_down = λ j e' pos. rw (dep, same_row j e', at) (h.right_down n 0 row);
        before_right = λ j x e' pos from within.
            let eq = same_row j e' in
            let bound : x < g.len n = rw (← eq) within in
            rw (at, eq)
              (rights_ascend o s g v shape h n 0 x (omega (arith, cursor))
                (some_row, row.1, bound));
        before_upper = λ bound. absurd (omega arith);
      }
