-- ===== src/Pipeline/Run/Scans.antt =====
-- What cilkStageWait and cilkStage record in a run.
use pracer.Base.{ℕ, suc, ◌-◌, ◌≤◌, ◌<◌, ◌≡◌, ◌∙◌, refl, sym, some, some_inj, subst}
use pracer.Pipeline.OmOrder.{OmOrder}
use pracer.Pipeline.Left.{get_left_dependency}
use pracer.Pipeline.Left.Cases.{tab}
use pracer.Pipeline.Strands.{StageFrame, StageList, Control, cilk_stage_wait, cilk_stage}
use pracer.Pipeline.Rows.{Shape}
use pracer.Pipeline.Run.{Active, Recorded, Run}
use pracer.Pipeline.Run.Started.{started-nodes, started-stage}
use pracer.Pipeline.Run.Steps.{cilk_stage-started, cilk_stage_wait-started}
use pracer.Pipeline.Run.Tracked.{last_strand, run-Tracked}

module _ {S : Type 0} (o : OmOrder S) (limit : ℕ) (pos : 1 ≤ limit) (f : ℕ → ℕ → StageFrame)
    (dep : ℕ → ℕ → ℕ) (g : Shape) (c c' : Control o) (i number : ℕ) (list : StageList)
    (run : Run o limit f dep g c) (active : Active o limit g i)
    (recorded : Recorded o limit f dep c' i (g.len i) list) where
  -- The stage before the index after the stage before is the one that the strand before had.
  pub dep_before : suc (dep i (g.len i - 1)) ≡ g.cursor i
  dep_before =
      let (lists, q, h) = run-Tracked o limit pos f dep g c run in
      h.shaped.dep_cursor i active.0 active.1

  pub wait-Scan :
      cilk_stage_wait o i number c ≡ some c'
      → ((f i (g.len i)).stage_num ≡ number)
        × (1 < i
            → suc (dep i (g.len i))
              ≡ (get_left_dependency
                  (tab (λ l. (f (i - 1) l).stage_num) 0 (g.len (i - 1)))
                  (g.cursor i)
                  number).1)
  wait-Scan done =
      let (lists, q, h) = run-Tracked o limit pos f dep g c run in
      let k = g.len i - 1 in
      let size = last_strand o limit pos f dep g c lists q i h active in
      let (right, list', done', placed, moved) =
        cilk_stage_wait-started o limit pos f dep g c lists q h i k active size number in
      let e = some_inj (sym done ∙ done') in
      let seen = subst (λ x. Recorded o limit f dep x i (g.len i) list) e recorded in
      let down = (f i k).down_first.down_cont in
      (
        started-stage o limit pos f dep g c lists q i number right down list' list h active placed.0
            seen,
        λ lt.
            recorded.2
            ∙ (started-nodes o limit pos f dep g c lists q i number right down list' list h active
                placed.0 seen).2
            ∙ moved lt,
      )

  pub stage-Scan : cilk_stage o i number c ≡ some c' → suc (dep i (g.len i)) ≡ g.cursor i
  stage-Scan done =
      let (lists, q, h) = run-Tracked o limit pos f dep g c run in
      let k = g.len i - 1 in
      let size = last_strand o limit pos f dep g c lists q i h active in
      let done' = cilk_stage-started o limit pos f dep g c lists q h i k active size number in
      let e = some_inj (sym done ∙ done') in
      let seen = subst (λ x. Recorded o limit f dep x i (g.len i) list) e recorded in
      recorded.2
      ∙ (started-nodes o limit pos f dep g c lists q i number (f i k).right_first.down_cont
          (f i k).down_first.down_cont (lists i) list h active refl seen).2
      ∙ h.index i active.0 active.1
