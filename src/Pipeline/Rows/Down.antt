-- ===== src/Pipeline/Rows/Down.antt =====
-- A new strand and the invariant of the down-first order.
use pracer.Base.{
  ℕ, zero, suc, ◌-◌, ◌≤◌, ◌≡◌, ◌∙◌, refl, sym, ap, true, ◌==◌, Bool-cases, ltb, ltb→lt, inl, inr,
  arith,
}
use pracer.Pipeline.OmOrder.{OmOrder}
use pracer.Pipeline.Strands.Places.{Behind}
use pracer.Pipeline.Rows.{Strand, Shape, InRow, Lt, Shaped, DownFirst}
use pracer.Pipeline.Rows.Grow.{Grown, old_or_new}

module _ {S : Type 0} (o : OmOrder S) where
  -- Where the node of strand k of row i stands when the strand begins.
  pub record DownPlace (s : S) (v : ℕ → ℕ → Strand) (i k : ℕ) : Type 0 where
    pub in_order : o.has s (v i k).current ≡ true
    pub after_down : (m : ℕ) → k ≡ suc m → (v i m).down ≡ (v i k).current
    pub after_right : (j : ℕ) → k ≡ 0 → i ≡ suc j → 1 ≤ j → (v j 0).right ≡ (v i k).current

  module _ (s s' : S) (g g' : Shape) (v : ℕ → ℕ → Strand) (i k : ℕ) (grown : Grown g g' i k)
      (shape : Shaped g v) (h : DownFirst o s g v) (place : DownPlace s v i k)
      (behind : Behind o s s' (v i k).current (v i k).down (v i k).right) where
    kept_lt : (x y : ℕ) → o.has s x ≡ true → o.has s y ≡ true → Lt o s x y → Lt o s' x y
    kept_lt x y hx hy lt = behind.older x y hx hy ∙ lt

    next_kept : (j m : ℕ) → InRow g' j (suc m) → (v j m).down ≡ (v j (suc m)).current
    next_kept j m at = elim (old_or_new g g' i k grown j (suc m) at) [
      | inl old ↦ h.down_next j m old
      | inr (e, e') ↦ let same = place.after_down m (sym e') in rw (e, e') same
    ]

    first_right : (m : ℕ) → m ≡ k → Lt o s' (v i m).down (v i 0).right
    first_right zero e = rw e behind.a_b
    first_right (suc m) e =
        let prev = grown.before m (omega arith) in
        let at : InRow g i 0 = (prev.0, prev.1, omega (arith, prev.2)) in
        let size : g.len i - 1 ≡ m = omega (arith, grown.len_before prev.1) in
        let was : Lt o s (v i m).down (v i 0).right = rw (← size) (h.last_right i prev.0 prev.1) in
        let before : Lt o s (v i k).current (v i 0).right =
          rw (← (place.after_down m (sym e))) was in
        let lt = behind.below _ (h.in_right i 0 at) before in
        rw e (o.precedes_trans s' _ _ _ behind.a_b lt)

    last_kept : (j : ℕ) → 1 ≤ j → j ≤ g'.count → Lt o s' (v j (g'.len j - 1)).down (v j 0).right
    last_kept j first last = elim (Bool-cases (j == i)) [
      | inl here ↦
          let e : j ≡ i = ground arith in
          let size : g'.len j ≡ suc k = rw e grown.len_here in
          let at_last : g'.len j - 1 ≡ k = omega arith in
          let lt = first_right k refl in rw (at_last, e) lt
      | inr apart ↦
          let bound = grown.count_other j apart last in
          let n = g.len j - 1 in
          let size : g'.len j - 1 ≡ n = omega (arith, grown.len_other j apart) in
          let started = shape.started j first bound in
          let at : InRow g j n = (first, bound, omega arith) in
          let at_first : InRow g j 0 = (first, bound, started) in
          let lt =
            kept_lt _ _ (h.in_down j n at) (h.in_right j 0 at_first) (h.last_right j first bound) in
          rw size lt
    ]

    right_kept : (j : ℕ) → 1 ≤ j → suc j ≤ g'.count → (v j 0).right ≡ (v (suc j) 0).current
    right_kept j first last = elim (Bool-cases (suc j == i)) [
      | inl here ↦
          let e : suc j ≡ i = ground arith in
          elim (Bool-cases (ltb 0 k)) [
            | inl lt ↦
                let prev = grown.before 0 (ltb→lt _ _ lt) in
                h.right_next j first (omega (arith, prev.1))
            | inr none ↦
                let e' : k ≡ 0 = ground arith in
                place.after_right j e' (sym e) first
                ∙ ap (λ m. (v i m).current) e'
                ∙ ap (λ r. (v r 0).current) (sym e)
          ]
      | inr apart ↦ h.right_next j first (grown.count_other (suc j) apart last)
    ]

    pub new_strand-DownFirst : DownFirst o s' g' v
    new_strand-DownFirst = record {
      in_current = λ j m at. elim (old_or_new g g' i k grown j m at) [
        | inl old ↦ behind.keeps _ (h.in_current j m old)
        | inr (e, e') ↦ let here = behind.keeps _ place.in_order in rw (e, e') here
      ];
      in_right = λ j m at. elim (old_or_new g g' i k grown j m at) [
        | inl old ↦ behind.keeps _ (h.in_right j m old)
        | inr (e, e') ↦ rw (e, e') behind.has_b
      ];
      in_down = λ j m at. elim (old_or_new g g' i k grown j m at) [
        | inl old ↦ behind.keeps _ (h.in_down j m old)
        | inr (e, e') ↦ rw (e, e') behind.has_a
      ];
      current_down = λ j m at. elim (old_or_new g g' i k grown j m at) [
        | inl old ↦ kept_lt _ _ (h.in_current j m old) (h.in_down j m old) (h.current_down j m old)
        | inr (e, e') ↦ rw (e, e') behind.base_a
      ];
      down_next = next_kept;
      last_right = last_kept;
      right_next = right_kept;
    }
