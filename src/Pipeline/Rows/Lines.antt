-- ===== src/Pipeline/Rows/Lines.antt =====
-- Any two strands of the rows.
use pracer.Base.{
  ℕ, zero, suc, ◌+◌, ◌-◌, ◌≤◌, ◌<◌, ◌≡◌, ◌∙◌, refl, sym, true, false, Bool, leb, ltb, ltb→lt, ap,
  Bool-cases, inl, inr, arith,
}
use pracer.Pipeline.OmOrder.{OmOrder}
use pracer.Pipeline.Rows.{Strand, Shape, InRow, Lt, Le, Shaped, RightFirst, DownFirst}

-- The last strand of row i - t that strand k of row i comes after.
abbrev pub latest : (ℕ → ℕ → Strand) → (i k t : ℕ) → ℕ
latest v i k zero = k
latest v i k (suc t) = (v (i - t) (latest v i k t)).dep

-- Whether the pipeline has a path from strand k of row i to strand k' of row i + t.
abbrev pub reaches : (ℕ → ℕ → Strand) → (i k t k' : ℕ) → Bool
reaches v i k t k' = leb k (latest v (i + t) k' t)

pub leb→le : (a b : ℕ) → leb a b ≡ true → a ≤ b
leb→le a b h = ground arith

gt_of : (a b : ℕ) → leb a b ≡ false → b < a
gt_of a b h = ground arith

pub latest_step :
    (v : ℕ → ℕ → Strand) (top k t i : ℕ)
    → top ≡ suc i + t
    → latest v top k (suc t) ≡ (v (suc i) (latest v top k t)).dep
latest_step v top k t i e =
    let row : top - t ≡ suc i = omega arith in ap (λ j. (v j (latest v top k t)).dep) row

module _ {S : Type 0} (o : OmOrder S) (s : S) where
  pub Le-Lt : (x y z : ℕ) → Le o s x y → Lt o s y z → Lt o s x z
  Le-Lt x y z (inl e) lt = rw e lt
  Le-Lt x y z (inr l) lt = o.precedes_trans s x y z l lt

  pub Lt-Le : (x y z : ℕ) → Lt o s x y → Le o s y z → Lt o s x z
  Lt-Le x y z lt (inl e) = rw (← e) lt
  Lt-Le x y z lt (inr l) = o.precedes_trans s x y z lt l

  pub Le-Le : (x y z : ℕ) → Le o s x y → Le o s y z → Le o s x z
  Le-Le x y z (inl e) le = rw e le
  Le-Le x y z (inr l) le = inr (Lt-Le x y z l le)

  module _ (g : Shape) (v : ℕ → ℕ → Strand) (shape : Shaped g v) (h : RightFirst o s g v) where
    current_down : (i k : ℕ) → InRow g i k → Lt o s (v i k).current (v i k).down
    current_down i k at = o.precedes_trans s _ _ _ (h.current_right i k at) (h.right_down i k at)

    earlier : (i k m : ℕ) → k ≤ m → InRow g i m → InRow g i k
    earlier i k m le (first, last, lt) = (first, last, omega arith)

    -- In a row a strand's down continuation comes before all later strands.
    pub down_later : (i k m : ℕ) → k < m → InRow g i m → Le o s (v i k).down (v i m).current
    down_later i k zero lt at = absurd (omega arith)
    down_later i k (suc m) lt at = elim (Bool-cases (ltb k m)) [
      | inl before ↦
          let at' = earlier i m (suc m) (omega arith) at in
          inr (
            Lt-Le _ _ _
              (Le-Lt _ _ _ (down_later i k m (ltb→lt _ _ before) at') (current_down i m at'))
              (h.down_next i m at))
      | inr last ↦ let e : k ≡ m = ground arith in rw e (h.down_next i m at)
    ]

    current_later : (i k m : ℕ) → k ≤ m → InRow g i m → Le o s (v i k).current (v i m).current
    current_later i k m le at = elim (Bool-cases (ltb k m)) [
      | inl before ↦ inr (
          Lt-Le _ _ _ (current_down i k (earlier i k m le at))
            (down_later i k m (ltb→lt _ _ before) at))
      | inr last ↦ let e : k ≡ m = ground arith in inl (ap (λ j. (v i j).current) e)
    ]

    latest-InRow :
        (top k t i : ℕ) → top ≡ i + t → 1 ≤ i → InRow g top k → InRow g i (latest v top k t)
    latest-InRow top k zero i e first at = let row : i ≡ top = omega arith in rw row at
    latest-InRow top k (suc t) i e first at =
        let above = latest-InRow top k t (suc i) (omega arith) (omega arith) at in
        (
          first,
          omega (arith, above.1),
          rw (latest_step v top k t i (omega arith)) (shape.dep_bound i _ first above),
        )

    -- Along the rows the right continuations lead up to a strand.
    current_latest :
        (top k t i : ℕ)
        → top ≡ i + t
        → 1 ≤ i
        → InRow g top k
        → Le o s (v i (latest v top k t)).current (v top k).current
    current_latest top k zero i e first at =
        let row : i ≡ top = omega arith in inl (ap (λ j. (v j k).current) row)
    current_latest top k (suc t) i e first at =
        let above = latest-InRow top k t (suc i) (omega arith) (omega arith) at in
        let here = latest-InRow top k (suc t) i e first at in
        let step = latest_step v top k t i (omega arith) in
        inr (
          Lt-Le _ _ _ (h.current_right i _ here) (
            Le-Le _ _ _ (rw step (h.right_current i _ first above))
              (current_latest top k t (suc i) (omega arith) (omega arith) at)))

    current_latest_lt :
        (top k t i : ℕ)
        → top ≡ i + suc t
        → 1 ≤ i
        → InRow g top k
        → Lt o s (v i (latest v top k (suc t))).current (v top k).current
    current_latest_lt top k t i e first at =
        let above = latest-InRow top k t (suc i) (omega arith) (omega arith) at in
        let here = latest-InRow top k (suc t) i e first at in
        let step = latest_step v top k t i (omega arith) in
        Lt-Le _ _ _ (h.current_right i _ here) (
          Le-Le _ _ _ (rw step (h.right_current i _ first above))
            (current_latest top k t (suc i) (omega arith) (omega arith) at))

    -- Along the rows the down continuations lead down to the latest strand that reaches one.
    down_latest :
        (top k t i : ℕ)
        → top ≡ i + t
        → 1 ≤ i
        → InRow g top k
        → Le o s (v top k).down (v i (latest v top k t)).down
    down_latest top k zero i e first at =
        let row : top ≡ i = omega arith in inl (ap (λ j. (v j k).down) row)
    down_latest top k (suc t) i e first at =
        let above = latest-InRow top k t (suc i) (omega arith) (omega arith) at in
        let step = latest_step v top k t i (omega arith) in
        inr (
          Le-Lt _ _ _ (down_latest top k t (suc i) (omega arith) (omega arith) at)
            (rw step (h.down_down i _ first above)))

    -- A strand of an earlier row comes first in the right-first order exactly if there is a path.
    pub right_first-reaches :
        (i k t k' : ℕ)
        → InRow g i k
        → InRow g (i + suc t) k'
        → o.precedes s (v i k).current (v (i + suc t) k').current ≡ reaches v i k (suc t) k'
    right_first-reaches i k t k' at at' =
        let top = i + suc t in
        let here = latest-InRow top k' (suc t) i refl at.0 at' in
        elim (Bool-cases (leb k (latest v top k' (suc t)))) [
          | inl path ↦
              Le-Lt _ _ _ (current_later i k _ (leb→le _ _ path) here)
                (current_latest_lt top k' t i refl at.0 at')
              ∙ sym path
          | inr none ↦
              o.precedes_asym s _ _ (
                Lt-Le _ _ _ (current_down top k' at') (
                  Le-Le _ _ _ (down_latest top k' (suc t) i refl at.0 at')
                    (down_later i _ k (gt_of _ _ none) at)))
              ∙ sym none
        ]

    -- In one row the strands stand in their order.
    pub right_first-row : (i k m : ℕ) → k < m → InRow g i m → Lt o s (v i k).current (v i m).current
    right_first-row i k m lt at =
        Lt-Le _ _ _ (current_down i k (earlier i k m (omega arith) at)) (down_later i k m lt at)

  module _ (g : Shape) (v : ℕ → ℕ → Strand) (shape : Shaped g v) (h : DownFirst o s g v) where
    pub down_first-row : (i k m : ℕ) → k < m → InRow g i m → Lt o s (v i k).current (v i m).current
    down_first-row i k zero lt at = absurd (omega arith)
    down_first-row i k (suc m) lt (first, last, within) =
        let at : InRow g i m = (first, last, omega arith) in
        let step : Lt o s (v i m).current (v i (suc m)).current =
          rw (← (h.down_next i m (first, last, within))) (h.current_down i m at) in
        elim (Bool-cases (ltb k m)) [
          | inl before ↦ o.precedes_trans s _ _ _ (down_first-row i k m (ltb→lt _ _ before) at) step
          | inr at_last ↦ let e : k ≡ m = ground arith in rw e step
        ]

    -- All of a row comes before the first strand of the next.
    row_right : (i k : ℕ) → InRow g i k → Lt o s (v i k).current (v i 0).right
    row_right i k (first, last, within) =
        let m = g.len i - 1 in
        let at : InRow g i m = (first, last, omega arith) in
        let end_of = o.precedes_trans s _ _ _ (h.current_down i m at) (h.last_right i first last) in
        elim (Bool-cases (ltb k m)) [
          | inl before ↦
              o.precedes_trans s _ _ _ (down_first-row i k m (ltb→lt _ _ before) at) end_of
          | inr at_last ↦ let e : k ≡ m = ground arith in rw e end_of
        ]

    first_later : (i k : ℕ) → InRow g i k → Le o s (v i 0).current (v i k).current
    first_later i zero at = inl refl
    first_later i (suc k) at = inr (down_first-row i 0 (suc k) (omega arith) at)

    next_row :
        (i k : ℕ) → InRow g i k → suc i ≤ g.count → Lt o s (v i k).current (v (suc i) 0).current
    next_row i k at bound = rw (← (h.right_next i at.0 bound)) (row_right i k at)

    first_rows :
        (i k t top : ℕ)
        → top ≡ i + suc t
        → InRow g i k
        → top ≤ g.count
        → Lt o s (v i k).current (v top 0).current
    first_rows i k zero top e at bound =
        let row : top ≡ suc i = omega arith in rw row (next_row i k at (omega arith))
    first_rows i k (suc t) top e at bound =
        let next : InRow g (suc i) 0 =
          (omega arith, omega arith, shape.started (suc i) (omega arith) (omega arith)) in
        o.precedes_trans s _ _ _ (next_row i k at (omega arith))
          (first_rows (suc i) 0 t top (omega arith) next bound)

    -- In the down-first order every row comes before the next.
    pub down_first-rows :
        (i k t k' : ℕ)
        → InRow g i k
        → InRow g (i + suc t) k'
        → Lt o s (v i k).current (v (i + suc t) k').current
    down_first-rows i k t k' at at' =
        Lt-Le _ _ _ (first_rows i k t (i + suc t) refl at at'.1) (first_later (i + suc t) k' at')
