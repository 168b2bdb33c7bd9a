-- ===== src/Pipeline/Run/Chains.antt =====
-- The two orders of a run, beside the stages that the lists' indices stand at.
use pracer.Base.{
  ℕ, zero, suc, ◌+◌, ◌-◌, ◌≤◌, ◌<◌, ◌≡◌, ◌≢◌, ◌∙◌, ◌&&◌, ◌↔◌, refl, sym, true, false, Bool, ◌⊎◌,
  inl, inr, arith, subst,
}
use pracer.Pipeline.OmOrder.{OmOrder}
use pracer.Pipeline.Strands.{StageFrame, Control}
use pracer.Pipeline.Rows.{Shape, InRow, Strand, Lt, Le, Shaped, RightFirst}
use pracer.Pipeline.Rows.Lines.{
  latest, reaches, right_first-reaches, right_first-row, Le-Lt, Lt-Le, down_first-row,
  down_first-rows, latest_step, leb→le,
}
use pracer.Pipeline.Run.{right_strands, down_strands, Run}
use pracer.Pipeline.Run.Tracks.{down_strands-Shaped}
use pracer.Pipeline.Run.Tracked.{run-Tracked}

-- From strand k of iteration i down an iteration to its next stage, and across to a stage of the
-- next iteration from the stage before its list's index.
pub data Chain (dep : ℕ → ℕ → ℕ) (i k : ℕ) : ℕ → ℕ → Type 0 where
  here : Chain dep i k i k
  down : {j m : ℕ} → Chain dep i k j m → Chain dep i k j (suc m)
  across : {j m : ℕ} → i ≤ j → Chain dep i k j (dep (suc j) m) → Chain dep i k (suc j) m

module _ (dep : ℕ → ℕ → ℕ) (i k : ℕ) where
  later_row : {j m : ℕ} → Chain dep i k j m → i ≤ j
  later_row here = omega arith
  later_row (down r) = later_row r
  later_row (across le r) = omega arith

  downs : (n m : ℕ) → m ≡ n + k → Chain dep i k i m
  downs zero m e = let same : k ≡ m = omega arith in subst (λ x. Chain dep i k i x) same here
  downs (suc n) zero e = absurd (omega arith)
  downs (suc n) (suc m) e = down (downs n m (omega arith))

  down_to : (m : ℕ) → k ≤ m → Chain dep i k i m
  down_to m le = downs (m - k) m (omega arith)

  same_row : {j m : ℕ} → Chain dep i k j m → j ≡ i → k ≤ m
  same_row here e = omega arith
  same_row (down r) e = omega (arith, same_row r e)
  same_row (across le r) e = absurd (omega arith)

  -- Up from a stage that the strand of the top row comes after.
  climb :
      (v : ℕ → ℕ → Strand) (top m n j : ℕ)
      → ((a b : ℕ) → (v a b).dep ≡ dep a b)
      → top ≡ j + n
      → i ≤ j
      → Chain dep i k j (latest v top m n)
      → Chain dep i k top m
  climb v top m zero j same e le r =
      let row : top ≡ j = omega arith in subst (λ x. Chain dep i k x m) (sym row) r
  climb v top m (suc n) j same e le r =
      let step = latest_step v top m n j (omega arith) ∙ same (suc j) (latest v top m n) in
      climb v top m n (suc j) same (omega arith) (omega arith)
        (across le (subst (λ x. Chain dep i k j x) step r))

  module _ {S : Type 0} (o : OmOrder S) (s : S) (g : Shape) (v : ℕ → ℕ → Strand)
      (same : (a b : ℕ) → (v a b).dep ≡ dep a b) (shape : Shaped g v) (h : RightFirst o s g v)
      (first : 1 ≤ i) where
    left_of : (j m : ℕ) → i ≤ j → InRow g (suc j) m → InRow g j (dep (suc j) m)
    left_of j m le at = (
      omega arith,
      omega (arith, at.1),
      rw (← (same (suc j) m)) (shape.dep_bound j m (omega arith) at),
    )

    across_lt :
        (j m : ℕ)
        → i ≤ j
        → InRow g (suc j) m
        → Lt o s (v j (dep (suc j) m)).current (v (suc j) m).current
    across_lt j m le at =
        let right = h.right_current j m (omega arith) at in
        Lt-Le o s _ _ _ (h.current_right j _ (left_of j m le at))
          (subst (λ x. Le o s (v j x).right (v (suc j) m).current) (same (suc j) m) right)

    -- A path leads up the right-first order.
    Chain-Le : {j m : ℕ} → Chain dep i k j m → InRow g j m → Le o s (v i k).current (v j m).current
    Chain-Le here at = inl refl
    Chain-Le (down {j} {m} r) at =
        let before : InRow g j m = (at.0, at.1, omega (arith, at.2)) in
        inr (
          Le-Lt o s _ _ _ (Chain-Le r before)
            (right_first-row o s g v shape h j m (suc m) (omega arith) at))
    Chain-Le (across {j} {m} le r) at =
        inr (Le-Lt o s _ _ _ (Chain-Le r (left_of j m le at)) (across_lt j m le at))

    pub Chain-Lt :
        {j m : ℕ} → Chain dep i k j m → i < j → InRow g j m → Lt o s (v i k).current (v j m).current
    Chain-Lt here lt at = absurd (omega arith)
    Chain-Lt (down {j} {m} r) lt at =
        let before : InRow g j m = (at.0, at.1, omega (arith, at.2)) in
        o.precedes_trans s _ _ _ (Chain-Lt r lt before)
          (right_first-row o s g v shape h j m (suc m) (omega arith) at)
    Chain-Lt (across {j} {m} le r) lt at =
        Le-Lt o s _ _ _ (Chain-Le r (left_of j m le at)) (across_lt j m le at)

-- Two strands are different.
abbrev pub Apart : (i k j m : ℕ) → Type 0
Apart i k j m = (i < j) ⊎ ((j < i) ⊎ ((i ≡ j) × ((k < m) ⊎ (m < k))))

true-false : true ≢ false
true-false e = absurd (ground arith)

both : (a b : Bool) → a && b ≡ true → (a ≡ true) × (b ≡ true)
both true b e = (refl, e)
both false b e = absurd (ground arith)

-- Both orders have one strand before the other.
abbrev pub precedes_both : {S : Type 0} (o : OmOrder S) → Control o → (x y : StageFrame) → Bool
precedes_both o c x y =
    o.precedes c.english x.down_first.current y.down_first.current
    && o.precedes c.hebrew x.right_first.current y.right_first.current

module _ {S : Type 0} (o : OmOrder S) (limit : ℕ) (pos : 1 ≤ limit) (f : ℕ → ℕ → StageFrame)
    (dep : ℕ → ℕ → ℕ) where
  later_rows :
      (g : Shape) (c : Control o) (i k t m : ℕ)
      → Run o limit f dep g c
      → InRow g i k
      → InRow g (i + suc t) m
      → precedes_both o c (f i k) (f (i + suc t) m) ≡ true ↔ Chain dep i k (i + suc t) m
  later_rows g c i k t m run at at' =
      let (lists, q, h) = run-Tracked o limit pos f dep g c run in
      let v = right_strands f dep in
      let english =
        down_first-rows o c.english g (down_strands f dep) (down_strands-Shaped g f dep h.shaped)
          h.down_first i k t m at at' in
      let path = right_first-reaches o c.hebrew g v h.shaped h.right_first i k t m at at' in
      (
        λ e.
            let within : i ≤ i = omega arith in
            let reached : reaches v i k (suc t) m ≡ true = sym path ∙ (both _ _ e).1 in
            climb dep i k v (i + suc t) m (suc t) i (λ a b. refl) refl within
              (down_to dep i k _ (leb→le _ _ reached)),
        λ r.
            let hebrew =
              Chain-Lt dep i k o c.hebrew g v (λ a b. refl) h.shaped h.right_first at.0 r
                (omega arith) at' in
            rw (english, hebrew) refl,
      )

  -- One strand precedes another in both orders exactly if a chain leads from it to the other.
  pub precedes_both-Chain :
      (g : Shape) (c : Control o) (i k j m : ℕ)
      → Run o limit f dep g c
      → InRow g i k
      → InRow g j m
      → Apart i k j m
      → precedes_both o c (f i k) (f j m) ≡ true ↔ Chain dep i k j m
  precedes_both-Chain g c i k j m run at at' apart =
      let (lists, q, h) = run-Tracked o limit pos f dep g c run in
      let w = down_strands f dep in
      let shaped = down_strands-Shaped g f dep h.shaped in
      elim apart [
        | inl lt ↦
            let t = j - i - 1 in
            let e : j ≡ i + suc t = omega arith in
            let row = subst (λ x. InRow g x m) e at' in
            subst (λ x. precedes_both o c (f i k) (f x m) ≡ true ↔ Chain dep i k x m) (sym e)
              (later_rows g c i k t m run at row)
        | inr (inl gt) ↦
            let t = i - j - 1 in
            let e : i ≡ j + suc t = omega arith in
            let row = subst (λ x. InRow g x k) e at in
            let back = down_first-rows o c.english g w shaped h.down_first j m t k at' row in
            let not_before =
              o.precedes_asym c.english _ _
                (subst (λ x. Lt o c.english (w j m).current (w x k).current) (sym e) back) in
            (
              λ e'. absurd (true-false (sym (both _ _ e').0 ∙ not_before)),
              λ r. absurd (omega (arith, later_row dep i k r)),
            )
        | inr (inr (e, inl lt)) ↦
            let row = subst (λ x. InRow g x m) (sym e) at' in
            let english = down_first-row o c.english g w shaped h.down_first i k m lt row in
            let hebrew = right_first-row o c.hebrew g _ h.shaped h.right_first i k m lt row in
            subst (λ x. precedes_both o c (f i k) (f x m) ≡ true ↔ Chain dep i k x m) e
              (λ e'. down_to dep i k m (omega arith), λ r. rw (english, hebrew) refl)
        | inr (inr (e, inr gt)) ↦
            let back = down_first-row o c.english g w shaped h.down_first i m k gt at in
            let not_before = o.precedes_asym c.english _ _ back in
            subst (λ x. precedes_both o c (f i k) (f x m) ≡ true ↔ Chain dep i k x m) e
              (
                λ e'. absurd (true-false (sym (both _ _ e').0 ∙ not_before)),
                λ r. absurd (omega (arith, same_row dep i k r refl)),
              )
      ]
