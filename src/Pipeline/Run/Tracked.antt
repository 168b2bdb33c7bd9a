-- ===== src/Pipeline/Run/Tracked.antt =====
-- The runs of a pipeline and their invariant, and whether the calls return.
use pracer.Base.{
  ℕ, suc, ◌-◌, ◌≤◌, ◌≡◌, ◌∙◌, refl, sym, true, none, some, some_inj, inl, arith, subst,
}
use pracer.Pipeline.OmOrder.{OmOrder}
use pracer.Pipeline.Iterations.{new_iterations}
use pracer.Pipeline.Iterations.Change.{with_list}
use pracer.Pipeline.Rows.Shapes.{opened, extended}
use pracer.Pipeline.Iterations.Laid.{new_iterations-Laid}
use pracer.Pipeline.Strands.{
  StageFrame, StageList, Control, cilk_stage_first, cilk_stage_wait, cilk_stage,
}
use pracer.Pipeline.Rows.{Shape}
use pracer.Pipeline.Run.{no_rows, Active, Recorded, Run, begin, first, wait, stage}
use pracer.Pipeline.Run.Tracks.{Tracks}
use pracer.Pipeline.Run.Steps.{cilk_stage-started, cilk_stage_wait-started, Placed-Tracks}
use pracer.Pipeline.Run.First.{cilk_stage_first-begun, begun-Tracks}

module _ {S : Type 0} (o : OmOrder S) (limit : ℕ) (pos : 1 ≤ limit) (f : ℕ → ℕ → StageFrame)
    (dep : ℕ → ℕ → ℕ) where
  abbrev pub Tracked : Shape → Control o → Type 0
  Tracked g c = (lists : ℕ → StageList) × (q : ℕ) × Tracks o limit pos f dep g c lists q

  empty_list : StageList
  empty_list = record {
    items = record { p = λ _. none; length = 0; size = 0 };
    iter_num = 0;
    stage_num = 0;
    index = 0;
  }

  begin-Tracked :
      (c : Control o)
      → c.iterations ≡ new_iterations limit
      → o.has c.english (o.get_base c.english) ≡ true
      → o.has c.hebrew (o.get_base c.hebrew) ≡ true
      → Tracked no_rows c
  begin-Tracked c fresh in_e in_h = (
    λ _. empty_list,
    0,
    record {
      laid = rw fresh (new_iterations-Laid (λ _. empty_list) limit pos);
      roomy = λ i from last. absurd (omega arith);
      length = λ i from last. absurd (omega arith);
      index = λ i from last. absurd (omega arith);
      frames = λ i k (from, last, lt). absurd (omega arith);
      shaped = record {
        started = λ i from last. absurd (omega arith);
        dep_bound = λ i k pos' (from', last, lt). absurd (omega arith);
        dep_cursor = λ i from last. absurd (omega arith);
        dep_first = λ i from last. absurd (omega arith);
      };
      right_first = record {
        in_current = λ i k (from, last, lt). absurd (omega arith);
        in_right = λ i k (from, last, lt). absurd (omega arith);
        in_down = λ i k (from, last, lt). absurd (omega arith);
        current_right = λ i k (from, last, lt). absurd (omega arith);
        right_down = λ i k (from, last, lt). absurd (omega arith);
        down_next = λ i k (from, last, lt). absurd (omega arith);
        down_down = λ i k pos' (from, last, lt). absurd (omega arith);
        right_current = λ i k pos' (from, last, lt). absurd (omega arith);
        pending = λ i x from last. absurd (omega arith);
      };
      down_first = record {
        in_current = λ i k (from, last, lt). absurd (omega arith);
        in_right = λ i k (from, last, lt). absurd (omega arith);
        in_down = λ i k (from, last, lt). absurd (omega arith);
        current_down = λ i k (from, last, lt). absurd (omega arith);
        down_next = λ i k (from, last, lt). absurd (omega arith);
        last_right = λ i from last. absurd (omega arith);
        right_next = λ i from last. absurd (omega arith);
      };
      english_base = λ _. in_e;
      hebrew_base = λ _. in_h;
    },
  )

  first-Tracked :
      (g : Shape) (c c' : Control o) (list : StageList)
      → Tracked g c
      → cilk_stage_first o (suc g.count) c ≡ some c'
      → Recorded o limit f dep c' (suc g.count) 0 list
      → Tracked (opened g) c'
  first-Tracked g c c' list (lists, q, h) done recorded =
      let (right, down, s, q', done', which, laid) =
        cilk_stage_first-begun o limit pos f dep g c lists q h in
      let e = some_inj (sym done ∙ done') in
      let seen = subst (λ x. Recorded o limit f dep x (suc g.count) 0 list) e recorded in
      let after =
        begun-Tracks o limit pos f dep g c lists q h right down s q' which laid list seen in
      let ring = with_list (suc g.count) list lists in
      (ring, q', subst (λ x. Tracks o limit pos f dep (opened g) x ring q') (sym e) after)

  -- The last strand of an active iteration.
  pub last_strand :
      (g : Shape) (c : Control o) (lists : ℕ → StageList) (q i : ℕ)
      → Tracks o limit pos f dep g c lists q
      → Active o limit g i
      → g.len i ≡ suc (g.len i - 1)
  last_strand g c lists q i h active =
      let some_strand = h.shaped.started i active.0 active.1 in omega arith

  wait-Tracked :
      (g : Shape) (c c' : Control o) (i number : ℕ) (list : StageList)
      → Tracked g c
      → Active o limit g i
      → cilk_stage_wait o i number c ≡ some c'
      → Recorded o limit f dep c' i (g.len i) list
      → Tracked (extended i list.index g) c'
  wait-Tracked g c c' i number list (lists, q, h) active done recorded =
      let k = g.len i - 1 in
      let size = last_strand g c lists q i h active in
      let (right, list', done', placed, moved) =
        cilk_stage_wait-started o limit pos f dep g c lists q h i k active size number in
      let e = some_inj (sym done ∙ done') in
      let seen = subst (λ x. Recorded o limit f dep x i (g.len i) list) e recorded in
      let after =
        Placed-Tracks o limit pos f dep g c lists q h i k active size number right list' list placed
          seen in
      let ring = with_list i list lists in
      (
        ring,
        q,
        subst (λ x. Tracks o limit pos f dep (extended i list.index g) x ring q) (sym e) after,
      )

  stage-Tracked :
      (g : Shape) (c c' : Control o) (i number : ℕ) (list : StageList)
      → Tracked g c
      → Active o limit g i
      → cilk_stage o i number c ≡ some c'
      → Recorded o limit f dep c' i (g.len i) list
      → Tracked (extended i list.index g) c'
  stage-Tracked g c c' i number list (lists, q, h) active done recorded =
      let k = g.len i - 1 in
      let size = last_strand g c lists q i h active in
      let done' = cilk_stage-started o limit pos f dep g c lists q h i k active size number in
      let e = some_inj (sym done ∙ done') in
      let seen = subst (λ x. Recorded o limit f dep x i (g.len i) list) e recorded in
      let after =
        Placed-Tracks o limit pos f dep g c lists q h i k active size number
          (f i k).right_first.down_cont (lists i) list
          (refl, inl (refl, h.index i active.0 active.1)) seen in
      let ring = with_list i list lists in
      (
        ring,
        q,
        subst (λ x. Tracks o limit pos f dep (extended i list.index g) x ring q) (sym e) after,
      )

  pub run-Tracked : (g : Shape) (c : Control o) → Run o limit f dep g c → Tracked g c
  run-Tracked _ _ (begin c fresh in_e in_h) = begin-Tracked c fresh in_e in_h
  run-Tracked _ _ (first {g} {c} {c'} list run done recorded) =
      first-Tracked g c c' list (run-Tracked g c run) done recorded
  run-Tracked _ _ (wait {g} {c} {c'} i number list run active done recorded) =
      wait-Tracked g c c' i number list (run-Tracked g c run) active done recorded
  run-Tracked _ _ (stage {g} {c} {c'} i number list run active done recorded) =
      stage-Tracked g c c' i number list (run-Tracked g c run) active done recorded

  -- In a run, where the throttle limit is one at least and the two orders follow the laws of
  -- OmOrder, cilkStageFirst returns for the next iteration: the ring of iterations always has a place
  -- for its list.
  pub cilk_stage_first_returns :
      (g : Shape) (c : Control o)
      → Run o limit f dep g c
      → (c' : Control o) × (cilk_stage_first o (suc g.count) c ≡ some c')
  cilk_stage_first_returns g c run =
      let (lists, q, h) = run-Tracked g c run in
      let (right, down, s, q', done, which, laid) =
        cilk_stage_first-begun o limit pos f dep g c lists q h in
      (_, done)

  -- In a run, where the throttle limit is one at least and the two orders follow the laws of
  -- OmOrder, cilkStageWait and cilkStage return for every active iteration, whatever the stage: they
  -- find its list and that of the iteration before, read both lists within their bounds, write the
  -- new frame within the list's array, and never call through NULL.
  pub stages_return :
      (g : Shape) (c : Control o) (i number : ℕ)
      → Run o limit f dep g c
      → Active o limit g i
      → ((c' : Control o) × (cilk_stage_wait o i number c ≡ some c'))
        × ((c' : Control o) × (cilk_stage o i number c ≡ some c'))
  stages_return g c i number run active =
      let (lists, q, h) = run-Tracked g c run in
      let k = g.len i - 1 in
      let size = last_strand g c lists q i h active in
      let (right, list', waited, placed, moved) =
        cilk_stage_wait-started o limit pos f dep g c lists q h i k active size number in
      ((_, waited), (_, cilk_stage-started o limit pos f dep g c lists q h i k active size number))
