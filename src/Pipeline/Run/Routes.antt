-- ===== src/Pipeline/Run/Routes.antt =====
-- The paths of a pipeline, beside the two orders of a run.
use pracer.Base.{
  ℕ, zero, suc, ◌+◌, ◌-◌, ◌≤◌, ◌≡◌, ◌↔◌, refl, true, Bool, ◌⊎◌, inl, inr, arith, subst, Bool-cases,
  ltb, ltb→lt,
}
use pracer.Pipeline.OmOrder.{OmOrder}
use pracer.Pipeline.Strands.{StageFrame, Control}
use pracer.Pipeline.Rows.{Shape, InRow, Shaped}
use pracer.Pipeline.Run.{Run, right_strands}
use pracer.Pipeline.Run.Tracked.{run-Tracked}
use pracer.Pipeline.Run.Chains.{
  Chain, here, down, across, Apart, precedes_both, precedes_both-Chain,
}
use pracer.Pipeline.Run.Cuts.{Rising, Timely, AllCut}
use pracer.Pipeline.Run.Kept.{run-AllCut}

module _ (f : ℕ → ℕ → StageFrame) (waits : ℕ → ℕ → Bool) where
  -- Strand m of iteration j + 1 follows on strand l of iteration j: an iteration begins after the
  -- first stage of the one before, and a wait is for all stages whose number is not greater.
  abbrev pub Follows : (j l m : ℕ) → Type 0
  Follows j l m =
      ((l ≡ 0) × (m ≡ 0))
      ⊎ ((waits (suc j) m ≡ true) × ((f j l).stage_num ≤ (f (suc j) m).stage_num))

  -- The pipeline's paths from strand k of iteration i: down an iteration to its next stage, and
  -- across to a stage of the next iteration that follows.
  pub data Route (i k : ℕ) : ℕ → ℕ → Type 0 where
    stay : Route i k i k
    next : {j m : ℕ} → Route i k j m → Route i k j (suc m)
    over : {j l m : ℕ} → i ≤ j → Route i k j l → Follows j l m → Route i k (suc j) m

  module _ (dep : ℕ → ℕ → ℕ) (i k : ℕ) where
    nexts : (n j a m : ℕ) → m ≡ n + a → Route i k j a → Route i k j m
    nexts zero j a m e r = let same : a ≡ m = omega arith in subst (λ x. Route i k j x) same r
    nexts (suc n) j a zero e r = absurd (omega arith)
    nexts (suc n) j a (suc m) e r = next (nexts n j a m (omega arith) r)

    next_to : (j a m : ℕ) → a ≤ m → Route i k j a → Route i k j m
    next_to j a m le r = nexts (m - a) j a m (omega arith) r

    downs_from : (n j a m : ℕ) → m ≡ n + a → Chain dep i k j a → Chain dep i k j m
    downs_from zero j a m e r =
        let same : a ≡ m = omega arith in subst (λ x. Chain dep i k j x) same r
    downs_from (suc n) j a zero e r = absurd (omega arith)
    downs_from (suc n) j a (suc m) e r = down (downs_from n j a m (omega arith) r)

    module _ (g : Shape) (shaped : Shaped g (right_strands f dep)) (cuts : AllCut f waits dep g)
        (first : 1 ≤ i) where
      left_row : (j m : ℕ) → i ≤ j → InRow g (suc j) m → InRow g j (dep (suc j) m)
      left_row j m le (from, last, lt) =
          (omega arith, omega arith, shaped.dep_bound j m (omega arith) (from, last, lt))

      Chain-Route : {j m : ℕ} → Chain dep i k j m → InRow g j m → Route i k j m
      Chain-Route here row = stay
      Chain-Route (down {j} {m} r) (from, last, lt) = next (Chain-Route r (from, last, omega arith))
      Chain-Route (across {j} {m} le r) row =
          let left = Chain-Route r (left_row j m le row) in
          elim ((cuts j m (omega arith) row).covered) [
            | inl none ↦ next_to (suc j) 0 m (omega arith) (over le left (inl (none, refl)))
            | inr (m', within, w, under) ↦
                next_to (suc j) m' m within (over le left (inr (w, under)))
          ]

      -- What a strand follows on is not beyond its list's index.
      Follows-le : (j l m : ℕ) → i ≤ j → InRow g (suc j) m → Follows j l m → l ≤ dep (suc j) m
      Follows-le j l m le row (inl (none, e)) = omega arith
      Follows-le j l m le row (inr (w, under)) = elim (Bool-cases (ltb (dep (suc j) m) l)) [
        | inl beyond ↦
            let over =
              (cuts j m (omega arith) row).uncovered l m (ltb→lt _ _ beyond) (omega arith) w in
            absurd (omega arith)
        | inr within ↦ ground arith
      ]

      Route-Chain : {j m : ℕ} → Route i k j m → InRow g j m → Chain dep i k j m
      Route-Chain stay row = here
      Route-Chain (next {j} {m} r) (from, last, lt) = down (Route-Chain r (from, last, omega arith))
      Route-Chain (over {j} {l} {m} le r follows) row =
          let bound = Follows-le j l m le row follows in
          let (from, last, lt) = left_row j m le row in
          let left = Route-Chain r (from, last, omega arith) in
          across le (downs_from (dep (suc j) m - l) j l (dep (suc j) m) (omega arith) left)

module _ {S : Type 0} (o : OmOrder S) (limit : ℕ) (pos : 1 ≤ limit) (f : ℕ → ℕ → StageFrame)
    (waits : ℕ → ℕ → Bool) (dep : ℕ → ℕ → ℕ) (rising : Rising f) where
  -- In a run, where the throttle limit is one at least, the two orders follow the laws of OmOrder,
  -- the stages of every iteration have rising numbers, and the runtime lets a wait pass only when
  -- all stages that the iteration before has yet to begin have greater numbers: of two different
  -- strands, one precedes the other in both orders exactly if the pipeline has a path from the one
  -- to the other. A path leads down an iteration, from the first stage of an iteration to that of
  -- the next, and to a stage that began with a wait from every stage of the iteration before whose
  -- number is not greater.
  pub precedes_both-Route :
      (g : Shape) (c : Control o) (i k j m : ℕ) (run : Run o limit f dep g c)
      → Timely f waits o limit dep g c run
      → InRow g i k
      → InRow g j m
      → Apart i k j m
      → precedes_both o c (f i k) (f j m) ≡ true ↔ Route f waits i k j m
  precedes_both-Route g c i k j m run timely from to apart =
      let (lists, q, h) = run-Tracked o limit pos f dep g c run in
      let cuts = run-AllCut f waits o limit pos dep rising g c run timely in
      let chain = precedes_both-Chain o limit pos f dep g c i k j m run from to apart in
      (
        λ e. Chain-Route f waits dep i k g h.shaped cuts from.0 (chain.0 e) to,
        λ r. chain.1 (Route-Chain f waits dep i k g h.shaped cuts from.0 r to),
      )
