-- ===== src/Pipeline/Run/Kept.antt =====
-- The lists' indices in a run in which the runtime lets a wait pass in time.
use pracer.Base.{Bool, ℕ, zero, suc, ◌-◌, ◌≤◌, ◌≡◌, refl, true, false, arith, subst, some}
use pracer.Pipeline.OmOrder.{OmOrder}
use pracer.Pipeline.Strands.{StageFrame, StageList, Control, cilk_stage_wait, cilk_stage}
use pracer.Pipeline.Left.Scan.{get_left_dependency-Scanned}
use pracer.Pipeline.Rows.{Shape}
use pracer.Pipeline.Run.{Active, Recorded, Run, begin, first, wait, stage}
use pracer.Pipeline.Run.Tracked.{run-Tracked}
use pracer.Pipeline.Run.Scans.{wait-Scan, stage-Scan, dep_before}
use pracer.Pipeline.Run.Cuts.{
  Rising, Past, Timely, Cut, AllCut, waited-Cut, unwaited-Cut, extended-AllCut, opened-AllCut,
}

module _ (f : ℕ → ℕ → StageFrame) (waits : ℕ → ℕ → Bool) {S : Type 0} (o : OmOrder S) (limit : ℕ)
    (pos : 1 ≤ limit) (dep : ℕ → ℕ → ℕ) (rising : Rising f) where
  module _ (g : Shape) (c c' : Control o) (number : ℕ) (list : StageList)
      (run : Run o limit f dep g c) (h : AllCut f waits dep g) where
    row_before : (r : ℕ) → Active o limit g (suc r) → 1 ≤ r → Cut f waits dep r (g.len (suc r) - 1)
    row_before r active lo =
        let (lists, q, t) = run-Tracked o limit pos f dep g c run in
        let some_strand = t.shaped.started (suc r) active.0 active.1 in
        h r (g.len (suc r) - 1) lo (active.0, active.1, omega arith)

    size : (r : ℕ) → Active o limit g (suc r) → g.len (suc r) ≡ suc (g.len (suc r) - 1)
    size r active =
        let (lists, q, t) = run-Tracked o limit pos f dep g c run in
        let some_strand = t.shaped.started (suc r) active.0 active.1 in omega arith

    wait-Cut :
        (r : ℕ) (active : Active o limit g (suc r))
        → cilk_stage_wait o (suc r) number c ≡ some c'
        → Recorded o limit f dep c' (suc r) (g.len (suc r)) list
        → waits (suc r) (g.len (suc r)) ≡ true
        → Past f waits g (suc r) number
        → 1 ≤ r
        → Cut f waits dep r (g.len (suc r))
    wait-Cut r active done recorded w past lo =
        let (here, ends) =
          wait-Scan o limit pos f dep g c c' (suc r) number list run active recorded done in
        let before = dep_before o limit pos f dep g c c' (suc r) number list run active recorded in
        let pred : suc r - 1 ≡ r = omega arith in
        let ends' = rw pred at ends (omega arith) in
        let scan =
          get_left_dependency-Scanned (λ l. (f r l).stage_num) (rising r) number (g.len r)
            (g.cursor (suc r)) in
        let k = g.len (suc r) - 1 in
        let from : dep (suc r) k ≤ dep (suc r) (g.len (suc r)) = omega (arith, scan.0) in
        waited-Cut f waits dep r k (g.len (suc r)) (size r active) (row_before r active lo) from
          (g.len r) _ number (rw before scan) ends' here w (λ l le. past r l refl lo le)

    stage-Cut :
        (r : ℕ) (active : Active o limit g (suc r))
        → cilk_stage o (suc r) number c ≡ some c'
        → Recorded o limit f dep c' (suc r) (g.len (suc r)) list
        → waits (suc r) (g.len (suc r)) ≡ false
        → 1 ≤ r
        → Cut f waits dep r (g.len (suc r))
    stage-Cut r active done recorded no_wait lo =
        let ends =
          stage-Scan o limit pos f dep g c c' (suc r) number list run active recorded done in
        let before = dep_before o limit pos f dep g c c' (suc r) number list run active recorded in
        let k = g.len (suc r) - 1 in
        let same : dep (suc r) (g.len (suc r)) ≡ dep (suc r) k = omega arith in
        let from : dep (suc r) k ≤ dep (suc r) (g.len (suc r)) = omega arith in
        unwaited-Cut f waits dep r k (g.len (suc r)) (size r active) (row_before r active lo) from
          same no_wait

    wait-AllCut :
        (i : ℕ) (active : Active o limit g i)
        → cilk_stage_wait o i number c ≡ some c'
        → Recorded o limit f dep c' i (g.len i) list
        → waits i (g.len i) ≡ true
        → Past f waits g i number
        → (j : ℕ) → i ≡ suc j
        → 1 ≤ j
        → Cut f waits dep j (g.len i)
    wait-AllCut zero active done recorded w past j e lo = absurd (omega arith)
    wait-AllCut (suc r) active done recorded w past j e lo =
        let same : r ≡ j = omega arith in
        subst (λ x. Cut f waits dep x (g.len (suc r))) same
          (wait-Cut r active done recorded w past (omega arith))

    stage-AllCut :
        (i : ℕ) (active : Active o limit g i)
        → cilk_stage o i number c ≡ some c'
        → Recorded o limit f dep c' i (g.len i) list
        → waits i (g.len i) ≡ false
        → (j : ℕ) → i ≡ suc j
        → 1 ≤ j
        → Cut f waits dep j (g.len i)
    stage-AllCut zero active done recorded w j e lo = absurd (omega arith)
    stage-AllCut (suc r) active done recorded w j e lo =
        let same : r ≡ j = omega arith in
        subst (λ x. Cut f waits dep x (g.len (suc r))) same
          (stage-Cut r active done recorded w (omega arith))

  pub run-AllCut :
      (g : Shape) (c : Control o) (run : Run o limit f dep g c)
      → Timely f waits o limit dep g c run
      → AllCut f waits dep g
  run-AllCut _ _ (begin c fresh in_e in_h) timely = λ j m at (from, last, lt). absurd (omega arith)
  run-AllCut _ _ (first {g} {c} {c'} list run done recorded) (timely, no_wait) =
      let (lists, q, t) = run-Tracked o limit pos f dep _ _ (first list run done recorded) in
      opened-AllCut f waits dep g (run-AllCut g c run timely)
        (t.shaped.dep_first (suc g.count) (omega arith) (omega arith)) no_wait
  run-AllCut _ _ (wait {g} {c} {c'} i number list run active done recorded) (timely, w, past) =
      extended-AllCut f waits dep g i list.index (run-AllCut g c run timely) (
        wait-AllCut g c c' number list run (run-AllCut g c run timely) i active done recorded w
          past)
  run-AllCut _ _ (stage {g} {c} {c'} i number list run active done recorded) (timely, no_wait) =
      extended-AllCut f waits dep g i list.index (run-AllCut g c run timely) (
        stage-AllCut g c c' number list run (run-AllCut g c run timely) i active done recorded
          no_wait)
