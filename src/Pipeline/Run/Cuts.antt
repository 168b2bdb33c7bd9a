-- ===== src/Pipeline/Run/Cuts.antt =====
-- The runs in which the runtime lets a wait pass in time, and where their lists' indices stand.
use pracer.Base.{
  ℕ, suc, ◌≤◌, ◌<◌, ◌≡◌, ◌∙◌, sym, Bool, true, false, ◌⊎◌, inl, inr, arith, subst, Bool-cases, ◌==◌,
  ltb, ltb→lt,
}
use pracer.Pipeline.OmOrder.{OmOrder}
use pracer.Pipeline.Strands.{StageFrame, Control}
use pracer.Pipeline.Left.Scan.{Scanned}
use pracer.Pipeline.Rows.{Shape, InRow}
use pracer.Pipeline.Rows.Shapes.{opened, extended}
use pracer.Pipeline.Run.{Run, begin, first, wait, stage}

-- The stages of every iteration have rising numbers. The frames beyond the end of a list are free,
-- and count as stages to come.
abbrev pub Rising : (ℕ → ℕ → StageFrame) → Type 0
Rising f = (i k : ℕ) → (f i k).stage_num < (f i (suc k)).stage_num

module _ (f : ℕ → ℕ → StageFrame) (waits : ℕ → ℕ → Bool) where
  -- The stage that iteration i begins is past the wait: all stages that the iteration before has yet
  -- to begin have greater numbers.
  abbrev pub Past : Shape → (i number : ℕ) → Type 0
  Past g i number = (j l : ℕ) → i ≡ suc j → 1 ≤ j → g.len j ≤ l → number < (f j l).stage_num

  module _ {S : Type 0} (o : OmOrder S) (limit : ℕ) (dep : ℕ → ℕ → ℕ) where
    -- `waits` tells which strands began with a wait, and the runtime let these pass in time.
    abbrev pub Timely : (g : Shape) (c : Control o) → Run o limit f dep g c → Type 0
    Timely _ _ (begin c fresh in_e in_h) = Unit
    Timely _ _ (first {g} {c} {c'} list run done recorded) =
        Timely g c run × (waits (suc g.count) 0 ≡ false)
    Timely _ _ (wait {g} {c} {c'} i number list run active done recorded) =
        Timely g c run × (waits i (g.len i) ≡ true) × Past g i number
    Timely _ _ (stage {g} {c} {c'} i number list run active done recorded) =
        Timely g c run × (waits i (g.len i) ≡ false)

  module _ (dep : ℕ → ℕ → ℕ) where
    -- The stage before the index is the last of the iteration before that a wait so far covers.
    pub record Cut (j m : ℕ) : Type 0 where
      pub covered :
          (dep (suc j) m ≡ 0)
          ⊎ ((m' : ℕ) × (m' ≤ m)
              × (waits (suc j) m' ≡ true)
              × ((f j (dep (suc j) m)).stage_num ≤ (f (suc j) m').stage_num))
      pub uncovered :
          (l m' : ℕ)
          → dep (suc j) m < l
          → m' ≤ m
          → waits (suc j) m' ≡ true
          → (f (suc j) m').stage_num < (f j l).stage_num

    abbrev pub AllCut : Shape → Type 0
    AllCut g = (j m : ℕ) → 1 ≤ j → InRow g (suc j) m → Cut j m

    first-Cut : (j m : ℕ) → dep (suc j) m ≡ 0 → m ≡ 0 → waits (suc j) 0 ≡ false → Cut j m
    first-Cut j m none zeroth no_wait = record {
      covered = inl none;
      uncovered = λ l m' past le w.
          let at : m' ≡ 0 = omega arith in
          let w' : waits (suc j) 0 ≡ true = subst (λ x. waits (suc j) x ≡ true) at w in
          absurd (ground arith);
    }

    -- One more strand of row j + 1, behind strand k.
    module _ (j k m : ℕ) (size : m ≡ suc k) (h : Cut j k) (le : dep (suc j) k ≤ dep (suc j) m) where
      next-Cut :
          (dep (suc j) m ≡ dep (suc j) k)
            ⊎ ((waits (suc j) m ≡ true)
                × ((f j (dep (suc j) m)).stage_num ≤ (f (suc j) m).stage_num))
          → (waits (suc j) m ≡ true
              → (l : ℕ) → dep (suc j) m < l
              → (f (suc j) m).stage_num < (f j l).stage_num)
          → Cut j m
      next-Cut which beyond = record {
        covered = elim which [
          | inl same ↦ elim h.covered [
            | inl none ↦ inl (same ∙ none)
            | inr (m', within, w, under) ↦ inr (
              m',
              omega arith,
              w,
              subst (λ x. (f j x).stage_num ≤ (f (suc j) m').stage_num) (sym same) under,
            )
          ]
          | inr (w, under) ↦ inr (m, omega arith, w, under)
        ];
        uncovered = λ l m' past within w. elim (Bool-cases (m' == m)) [
          | inl here ↦
              let e : m' ≡ m = ground arith in
              let w' = subst (λ x. waits (suc j) x ≡ true) e w in
              subst (λ x. (f (suc j) x).stage_num < (f j l).stage_num) (sym e) (beyond w' l past)
          | inr before ↦ h.uncovered l m' (omega arith) (ground arith) w
        ];
      }

      pub unwaited-Cut : dep (suc j) m ≡ dep (suc j) k → waits (suc j) m ≡ false → Cut j m
      unwaited-Cut same no_wait = next-Cut (inl same) (λ w. absurd (ground arith))

      pub waited-Cut :
          (n index' number : ℕ)
          → Scanned number (λ l. (f j l).stage_num) (suc (dep (suc j) k)) n index'
          → suc (dep (suc j) m) ≡ index'
          → (f (suc j) m).stage_num ≡ number
          → waits (suc j) m ≡ true
          → ((l : ℕ) → n ≤ l → number < (f j l).stage_num)
          → Cut j m
      waited-Cut n index' number (from, passed, left) ends here w past =
          next-Cut
            (elim (Bool-cases (dep (suc j) m == dep (suc j) k)) [
              | inl same ↦ inl (ground arith)
              | inr moved ↦
                  let beyond : suc (dep (suc j) k) ≤ dep (suc j) m = ground arith in
                  inr (w, omega (arith, here, passed (dep (suc j) m) beyond (omega arith)))
            ])
            (λ _ l after. elim (Bool-cases (ltb l n)) [
              | inl within ↦ omega (arith, here, left l (omega arith) (ltb→lt _ _ within))
              | inr without ↦ omega (arith, here, past l (ground arith))
            ])

    -- Row i has one more strand.
    pub extended-AllCut :
        (g : Shape) (i cursor : ℕ)
        → AllCut g
        → ((j : ℕ) → i ≡ suc j → 1 ≤ j → Cut j (g.len i))
        → AllCut (extended i cursor g)
    extended-AllCut g i cursor h new j m lo (from, last, lt) = elim (Bool-cases (suc j == i)) [
      | inl here ↦
          let e : suc j ≡ i = ground arith in
          let lt' : m < suc (g.len i) = rw here at lt in
          elim (Bool-cases (m == g.len i)) [
            | inl end ↦
                let e' : m ≡ g.len i = ground arith in
                subst (λ x. Cut j x) (sym e') (new j (sym e) lo)
            | inr before ↦
                let within : m < g.len i = ground arith in
                h j m lo (from, last, subst (λ x. m < g.len x) (sym e) within)
          ]
      | inr other ↦ h j m lo (from, last, rw other at lt)
    ]

    pub opened-AllCut :
        (g : Shape)
        → AllCut g
        → dep (suc g.count) 0 ≡ 0
        → waits (suc g.count) 0 ≡ false
        → AllCut (opened g)
    opened-AllCut g h none no_wait j m lo (from, last, lt) =
        elim (Bool-cases (suc j == suc g.count)) [
          | inl here ↦
              let e : g.count ≡ j = ground arith in
              let lt' : m < 1 = rw here at lt in
              let zeroth : 0 ≡ m = omega arith in
              first-Cut j m
                (subst (λ x. dep (suc j) x ≡ 0) zeroth (subst (λ x. dep (suc x) 0 ≡ 0) e none))
                (sym zeroth) (subst (λ x. waits (suc x) 0 ≡ false) e no_wait)
          | inr other ↦
              let lt' : m < g.len (suc j) = rw other at lt in h j m lo (from, ground arith, lt')
        ]
