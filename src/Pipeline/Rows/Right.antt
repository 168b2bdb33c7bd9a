-- ===== src/Pipeline/Rows/Right.antt =====
-- A new strand and the invariant of the right-first order.
use pracer.Base.{
  ℕ, suc, ◌-◌, ◌≤◌, ◌<◌, ◌≡◌, ◌∙◌, sym, ap, true, false, ◌==◌, Bool-cases, inl, inr, arith,
}
use pracer.Pipeline.OmOrder.{OmOrder}
use pracer.Pipeline.Strands.Places.{Behind}
use pracer.Pipeline.Rows.{Strand, Shape, InRow, Lt, Le, Shaped, RightFirst}
use pracer.Pipeline.Rows.Grow.{Grown, LeftOf, old_or_new}

module _ {S : Type 0} (o : OmOrder S) where
  -- Where the node of strand k of row i stands when the strand begins.
  pub record RightPlace (s : S) (g g' : Shape) (v : ℕ → ℕ → Strand) (i k : ℕ) : Type 0 where
    pub in_order : o.has s (v i k).current ≡ true
    pub after_down : (m : ℕ) → k ≡ suc m → Le o s (v i m).down (v i k).current
    pub after_left : (j : ℕ) → i ≡ suc j → 1 ≤ j → Le o s (v j (v i k).dep).right (v i k).current
    pub before_down : (j : ℕ) → i ≡ suc j → 1 ≤ j → Lt o s (v i k).current (v j (v i k).dep).down
    pub before_right :
        (j x : ℕ)
        → i ≡ suc j
        → 1 ≤ j
        → g'.cursor i ≤ x
        → x < g.len j
        → Lt o s (v i k).current (v j x).right
    pub before_upper : suc i ≤ g.count → Lt o s (v (suc i) (g.len (suc i) - 1)).down (v i k).current

  module _ (s s' : S) (g g' : Shape) (v : ℕ → ℕ → Strand) (i k : ℕ) (grown : Grown g g' i k)
      (left : LeftOf g g' v i k) (shape : Shaped g v) (h : RightFirst o s g v)
      (place : RightPlace s g g' v i k)
      (behind : Behind o s s' (v i k).current (v i k).right (v i k).down) where
    kept_lt : (x y : ℕ) → o.has s x ≡ true → o.has s y ≡ true → Lt o s x y → Lt o s' x y
    kept_lt x y hx hy lt = behind.older x y hx hy ∙ lt

    kept_le : (x y : ℕ) → o.has s x ≡ true → o.has s y ≡ true → Le o s x y → Le o s' x y
    kept_le x y hx hy (inl e) = inl e
    kept_le x y hx hy (inr lt) = inr (kept_lt x y hx hy lt)

    left_row : (j m : ℕ) → 1 ≤ j → InRow g (suc j) m → InRow g j (v (suc j) m).dep
    left_row j m first at = (first, omega (arith, at.1), shape.dep_bound j m first at)

    left_new : (j : ℕ) → i ≡ suc j → 1 ≤ j → InRow g j (v i k).dep
    left_new j e first =
        let other : (j == i) ≡ false = ground arith in
        let in_count = grown.count_other j other (omega (arith, grown.counted)) in
        (first, in_count, left.dep_bound j e first)

    next_kept : (j m : ℕ) → InRow g' j (suc m) → Le o s' (v j m).down (v j (suc m)).current
    next_kept j m at = elim (old_or_new g g' i k grown j (suc m) at) [
      | inl old ↦
          let prev : InRow g j m = (old.0, old.1, omega (arith, old.2)) in
          kept_le _ _ (h.in_down j m prev) (h.in_current j (suc m) old) (h.down_next j m old)
      | inr (e, e') ↦
          let prev = grown.before m (omega arith) in
          let le = kept_le _ _ (h.in_down i m prev) place.in_order (place.after_down m (sym e')) in
          rw (e, e') le
    ]

    down_kept :
        (j m : ℕ)
        → 1 ≤ j
        → InRow g' (suc j) m
        → Lt o s' (v (suc j) m).down (v j (v (suc j) m).dep).down
    down_kept j m first at = elim (old_or_new g g' i k grown (suc j) m at) [
      | inl old ↦
          kept_lt _ _ (h.in_down (suc j) m old) (h.in_down j _ (left_row j m first old))
            (h.down_down j m first old)
      | inr (e, e') ↦
          let prev = left_new j (sym e) first in
          let lt = behind.below _ (h.in_down j _ prev) (place.before_down j (sym e) first) in
          rw (e, e') lt
    ]

    current_kept :
        (j m : ℕ)
        → 1 ≤ j
        → InRow g' (suc j) m
        → Le o s' (v j (v (suc j) m).dep).right (v (suc j) m).current
    current_kept j m first at = elim (old_or_new g g' i k grown (suc j) m at) [
      | inl old ↦
          kept_le _ _ (h.in_right j _ (left_row j m first old)) (h.in_current (suc j) m old)
            (h.right_current j m first old)
      | inr (e, e') ↦
          let prev = left_new j (sym e) first in
          let le =
            kept_le _ _ (h.in_right j _ prev) place.in_order (place.after_left j (sym e) first) in
          rw (e, e') le
    ]

    -- The last stage of row j + 1 comes before what it has not passed in row j.
    pending_kept :
        (j x : ℕ)
        → 1 ≤ j
        → suc j ≤ g'.count
        → g'.cursor (suc j) ≤ x
        → x < g'.len j
        → Lt o s' (v (suc j) (g'.len (suc j) - 1)).down (v j x).right
    pending_kept j x first last from within = elim (Bool-cases (suc j == i)) [
      | inl upper ↦
          let e : suc j ≡ i = ground arith in
          let size : g'.len (suc j) ≡ suc k = rw e grown.len_here in
          let at_last : g'.len (suc j) - 1 ≡ k = omega arith in
          let apart : (j == i) ≡ false = ground arith in
          let within' : x < g.len j = omega (arith, grown.len_other j apart) in
          let from' : g'.cursor i ≤ x = rw (← e) from in
          let row : InRow g j x = (first, grown.count_other j apart (omega arith), within') in
          let lt =
            behind.below _ (h.in_right j x row)
              (place.before_right j x (sym e) first from' within') in
          rw (at_last, e) lt
      | inr apart ↦
          let bound = grown.count_other (suc j) apart last in
          let from' : g.cursor (suc j) ≤ x = omega (arith, grown.cursor_other (suc j) apart) in
          let n = g.len (suc j) - 1 in
          let size : g'.len (suc j) - 1 ≡ n = omega (arith, grown.len_other (suc j) apart) in
          let upper : InRow g (suc j) n =
            (omega arith, bound, omega (arith, shape.started (suc j) (omega arith) bound)) in
          elim (old_or_new g g' i k grown j x (first, omega arith, within)) [
            | inl old ↦
                let lt =
                  kept_lt _ _ (h.in_down (suc j) n upper) (h.in_right j x old)
                    (h.pending j x first bound from' old.2) in
                rw size lt
            | inr (e, e') ↦
                let lower = place.before_upper (omega arith) in
                let up : Lt o s (v (suc j) n).down (v i k).current =
                  rw (ap (λ r. (v (suc r) (g.len (suc r) - 1)).down) e) lower in
                let lt = behind.above _ (h.in_down (suc j) n upper) up in
                rw (size, e', ap (λ r. (v r k).right) e) lt
          ]
    ]

    pub new_strand-RightFirst : RightFirst o s' g' v
    new_strand-RightFirst = record {
      in_current = λ j m at. elim (old_or_new g g' i k grown j m at) [
        | inl old ↦ behind.keeps _ (h.in_current j m old)
        | inr (e, e') ↦ let here = behind.keeps _ place.in_order in rw (e, e') here
      ];
      in_right = λ j m at. elim (old_or_new g g' i k grown j m at) [
        | inl old ↦ behind.keeps _ (h.in_right j m old)
        | inr (e, e') ↦ rw (e, e') behind.has_a
      ];
      in_down = λ j m at. elim (old_or_new g g' i k grown j m at) [
        | inl old ↦ behind.keeps _ (h.in_down j m old)
        | inr (e, e') ↦ rw (e, e') behind.has_b
      ];
      current_right = λ j m at. elim (old_or_new g g' i k grown j m at) [
        | inl old ↦
            kept_lt _ _ (h.in_current j m old) (h.in_right j m old) (h.current_right j m old)
        | inr (e, e') ↦ rw (e, e') behind.base_a
      ];
      right_down = λ j m at. elim (old_or_new g g' i k grown j m at) [
        | inl old ↦ kept_lt _ _ (h.in_right j m old) (h.in_down j m old) (h.right_down j m old)
        | inr (e, e') ↦ rw (e, e') behind.a_b
      ];
      down_next = next_kept;
      down_down = down_kept;
      right_current = current_kept;
      pending = pending_kept;
    }
