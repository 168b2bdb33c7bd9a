-- ===== src/Pipeline/Rows/Places.antt =====
-- The places that the pipeline gives a new strand: behind the strand before it in its row, behind a
-- strand of the row before that it waits for, and at the start of a row.
use pracer.Base.{ℕ, suc, ◌-◌, ◌≤◌, ◌<◌, ◌≡◌, ◌∙◌, sym, ap, Bool-cases, ltb, ltb→lt, inl, inr, arith}
use pracer.Pipeline.OmOrder.{OmOrder}
use pracer.Pipeline.Rows.{Strand, Shape, InRow, Lt, Le, Shaped, RightFirst}
use pracer.Pipeline.Rows.Lines.{Le-Lt, Lt-Le, down_later}
use pracer.Pipeline.Rows.Grow.{LeftOf}
use pracer.Pipeline.Rows.Right.{RightPlace}

module _ {S : Type 0} (o : OmOrder S) (s : S) (g : Shape) (v : ℕ → ℕ → Strand) (shape : Shaped g v)
    (h : RightFirst o s g v) where
  pub rights_ascend : (i k m : ℕ) → k < m → InRow g i m → Lt o s (v i k).right (v i m).right
  rights_ascend i k m lt at =
      let at' : InRow g i k = (at.0, at.1, omega (arith, at.2)) in
      o.precedes_trans s _ _ _
        (Lt-Le o s _ _ _ (h.right_down i k at') (down_later o s g v shape h i k m lt at))
        (h.current_right i m at)

  downs_ascend : (i k m : ℕ) → k ≤ m → InRow g i m → Le o s (v i k).down (v i m).down
  downs_ascend i k m le at = elim (Bool-cases (ltb k m)) [
    | inl lt ↦ inr (
        Le-Lt o s _ _ _ (down_later o s g v shape h i k m (ltb→lt _ _ lt) at)
          (o.precedes_trans s _ _ _ (h.current_right i m at) (h.right_down i m at)))
    | inr ge ↦ let e : k ≡ m = ground arith in inl (ap (λ j. (v i j).down) e)
  ]

  last_of : (i : ℕ) → 1 ≤ i → i ≤ g.count → InRow g i (g.len i - 1)
  last_of i first last = let started = shape.started i first last in (first, last, omega arith)

  -- The down continuation of a row's last strand comes behind that of the next row's.
  upper_down :
      (i : ℕ)
      → 1 ≤ i
      → suc i ≤ g.count
      → Lt o s (v (suc i) (g.len (suc i) - 1)).down (v i (g.len i - 1)).down
  upper_down i first last =
      let top = last_of (suc i) (omega arith) last in
      let m = g.len (suc i) - 1 in
      let bound = shape.dep_bound i m first top in
      Lt-Le o s _ _ _ (h.down_down i m first top)
        (downs_ascend i _ _ (omega arith) (last_of i first (omega arith)))

  module _ (g' : Shape) (i k : ℕ) (first : 1 ≤ i) (last : i ≤ g.count) (size : g.len i ≡ suc k)
      (left : LeftOf g g' v i (suc k)) where
    here : InRow g i k
    here = (first, last, omega arith)

    end_of : g.len i - 1 ≡ k
    end_of = omega arith

    upper_last : suc i ≤ g.count → Lt o s (v (suc i) (g.len (suc i) - 1)).down (v i k).down
    upper_last bound = rw (← end_of) (upper_down i first bound)

    left_up : (j : ℕ) → i ≡ suc j → 1 ≤ j → Le o s (v j (v i k).dep).right (v i k).current
    left_up j e pos =
        let row : InRow g (suc j) k = rw (← e) here in rw e (h.right_current j k pos row)

    left_down : (j : ℕ) → i ≡ suc j → 1 ≤ j → Lt o s (v i k).down (v j (v i k).dep).down
    left_down j e pos =
        let row : InRow g (suc j) k = rw (← e) here in rw e (h.down_down j k pos row)

    left_pending :
        (j x : ℕ)
        → i ≡ suc j
        → 1 ≤ j
        → g.cursor i ≤ x
        → x < g.len j
        → Lt o s (v i k).down (v j x).right
    left_pending j x e pos from within =
        let from' : g.cursor (suc j) ≤ x = rw (← e) from in
        let end_of' : g.len (suc j) - 1 ≡ k = rw (← e) end_of in
        rw (e, ← end_of') (h.pending j x pos (omega (arith, e)) from' within)

    -- Without a wait, or where the wait finds nothing new.
    pub in_row-RightPlace :
        (v i (suc k)).current ≡ (v i k).down
        → g'.cursor i ≡ g.cursor i
        → RightPlace o s g g' v i (suc k)
    in_row-RightPlace at same =
        let was : suc (v i k).dep ≡ g.cursor i = rw (← end_of) (shape.dep_cursor i first last) in
        let dep : (v i (suc k)).dep ≡ (v i k).dep = omega (arith, left.dep_cursor) in
        record {
          in_order = rw at (h.in_down i k here);
          after_down =
              λ m e. let e' : m ≡ k = omega arith in inl (ap (λ j. (v i j).down) e' ∙ sym at);
          after_left = λ j e pos.
              rw (dep, at)
                (inr (
                  Le-Lt o s _ _ _ (left_up j e pos)
                    (o.precedes_trans s _ _ _ (h.current_right i k here) (h.right_down i k here))));
          before_down = λ j e pos. rw (dep, at) (left_down j e pos);
          before_right =
              λ j x e pos from within. rw at (left_pending j x e pos (omega (arith, same)) within);
          before_upper = λ bound. rw at (upper_last bound);
        }

    -- Behind a strand of the row before.
    pub left-RightPlace :
        (j l : ℕ)
        → i ≡ suc j
        → 1 ≤ j
        → g.cursor i ≤ l
        → l < g.len j
        → (v i (suc k)).current ≡ (v j l).right
        → g'.cursor i ≡ suc l
        → RightPlace o s g g' v i (suc k)
    left-RightPlace j l e pos from within at moved =
        let row : InRow g j l = (pos, omega arith, within) in
        let dep : (v i (suc k)).dep ≡ l = omega (arith, left.dep_cursor) in
        let below = left_pending j l e pos from within in
        let same_row = λ (j' : ℕ) (e' : i ≡ suc j'). (let eq : j' ≡ j = omega arith in eq) in
        record {
          in_order = rw at (h.in_right j l row);
          after_down = λ m e'. let eq : m ≡ k = omega arith in rw (at, eq) (inr below);
          after_left = λ j' e' pos'. inl (
              ap (λ r. (v r (v i (suc k)).dep).right) (same_row j' e')
              ∙ ap (λ x. (v j x).right) dep
              ∙ sym at);
          before_down = λ j' e' pos'. rw (at, dep, same_row j' e') (h.right_down j l row);
          before_right = λ j' x e' pos' from' within'.
              let eq = same_row j' e' in
              let bound : x < g.len j = rw (← eq) within' in
              rw (at, eq) (rights_ascend j l x (omega (arith, moved)) (pos, row.1, bound));
          before_upper = λ bound. rw at (o.precedes_trans s _ _ _ (upper_last bound) below);
        }
