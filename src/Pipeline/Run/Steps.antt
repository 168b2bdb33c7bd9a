-- ===== src/Pipeline/Run/Steps.antt =====
-- cilkStageWait and cilkStage as steps of a run.
use pracer.Base.{
  ℕ, suc, ◌+◌, ◌-◌, ◌≤◌, ◌<◌, ◌≡◌, ◌∙◌, refl, sym, ap, false, some, ◌==◌, Bool-cases, inl, inr,
  arith, ltb, ltb→lt, ◌⊎◌, eqb_refl, subst,
}
use pracer.Pipeline.OmOrder.{OmOrder}
use pracer.Pipeline.Items.Laws.{IsRoomy}
use pracer.Pipeline.Iterations.{get_stage_frame_list}
use pracer.Pipeline.Iterations.Window.{Laid-window}
use pracer.Pipeline.Iterations.Change.{with_list}
use pracer.Pipeline.Left.{get_left_dependency}
use pracer.Pipeline.Left.Cases.{get_left_dependency-Passed, tab, length-tab, stages_from-tab}
use pracer.Pipeline.Strands.{
  StageFrame, StageList, Control, last_frame, wait_left, cilk_stage_wait, cilk_stage, stages,
  stages_from,
}
use pracer.Pipeline.Rows.{Shape}
use pracer.Pipeline.Rows.Shapes.{extended}
use pracer.Pipeline.Rows.Places.{in_row-RightPlace, left-RightPlace}
use pracer.Pipeline.Rows.Starts.{in_row-LeftOf, left-LeftOf}
use pracer.Pipeline.Rows.Grow.{LeftOf}
use pracer.Pipeline.Rows.Right.{RightPlace}
use pracer.Pipeline.Rows.Down.{DownPlace}
use pracer.Pipeline.Run.{right_strands, down_strands, Active, Recorded}
use pracer.Pipeline.Run.Tracks.{Tracks}
use pracer.Pipeline.Run.Started.{started, start_stage-started, started-nodes, started-Tracks}

module _ {S : Type 0} (o : OmOrder S) (limit : ℕ) (pos : 1 ≤ limit) (f : ℕ → ℕ → StageFrame)
    (dep : ℕ → ℕ → ℕ) (g : Shape) (c : Control o) (lists : ℕ → StageList) (q : ℕ)
    (h : Tracks o limit pos f dep g c lists q) where
  found :
      (j : ℕ)
      → 1 ≤ j
      → j ≤ g.count
      → g.count < j + (limit + 1)
      → get_stage_frame_list c.iterations j ≡ some (lists j)
  found j first last near =
      Laid-window lists limit pos q g.count c.iterations h.laid j first last near

  -- The node that a strand of row i starts at, and its list, whose cursor may have moved on.
  abbrev Placed : (i k right : ℕ) → StageList → Type 0
  Placed i k right list' =
      (list'.items ≡ (lists i).items)
      × (((right ≡ (f i k).right_first.down_cont) × (list'.index ≡ g.cursor i))
          ⊎ ((j : ℕ) × (l : ℕ) × (i ≡ suc j)
              × (1 ≤ j)
              × (g.cursor i ≤ l)
              × (l < g.len j)
              × (right ≡ (f j l).right_first.right_cont)
              × (list'.index ≡ suc l)))

  -- Where the index of an iteration stands after a wait for the iteration before.
  abbrev pub Moved : (i number : ℕ) → StageList → Type 0
  Moved i number list' =
      1 < i
      → list'.index
        ≡ (get_left_dependency (tab (λ l. (f (i - 1) l).stage_num) 0 (g.len (i - 1))) (g.cursor i)
            number).1

  module _ (i k : ℕ) (active : Active o limit g i) (size : g.len i ≡ suc k) where
    found_here : get_stage_frame_list c.iterations i ≡ some (lists i)
    found_here = found i active.0 active.1 (omega (arith, active.2))

    last_here : last_frame o (lists i) ≡ some (f i k)
    last_here =
        let at : (lists i).items.length - 1 ≡ k =
          omega (arith, h.length i active.0 active.1, size) in
        rw at (h.frames i k (active.0, active.1, omega (arith, size)))

    pub cilk_stage-started :
        (number : ℕ)
        → cilk_stage o i number c
          ≡ some (
              started o c i number
                (f i k).right_first.down_cont
                (f i k).down_first.down_cont
                (lists i))
    unfolding cilk_stage
    cilk_stage-started number =
        rw (found_here, last_here)
          (start_stage-started o c i number (f i k).right_first.down_cont
            (f i k).down_first.down_cont (lists i) (h.roomy i active.0 active.1))

    wait_left-Placed :
        (number : ℕ)
        → (right : ℕ) × (list' : StageList) × (wait_left o i number
              (lists i)
              (f i k).right_first.down_cont
              c
            ≡ some (right, list'))
          × Placed i k right list'
          × Moved i number list'
    unfolding wait_left
    wait_left-Placed number = elim (Bool-cases (ltb 1 i)) [
      | inl later ↦
          let j = i - 1 in
          let two : 1 < i = ltb→lt _ _ later in
          let e : i ≡ suc j = omega arith in
          let before = found j (omega arith) (omega (arith, active.1)) (omega (arith, active.2)) in
          let numbers = tab (λ l. (f j l).stage_num) 0 (g.len j) in
          let r = get_left_dependency numbers (lists i).index number in
          let moved : StageList = record (lists i) { index = r.1 } in
          let cursor : (lists i).index ≡ g.cursor i = h.index i active.0 active.1 in
          let to : Moved i number moved =
            λ _. ap (λ x. (get_left_dependency numbers x number).1) cursor in
          let count : (lists j).items.length ≡ g.len j =
            h.length j (omega arith) (omega (arith, active.1)) in
          let started = h.shaped.dep_cursor i active.0 active.1 in
          let read : stages (lists j).items ≡ some numbers =
            ap (stages_from (lists j).items 0) count
            ∙ stages_from-tab (lists j).items (f j) 0 (g.len j)
                (λ l lt. h.frames j l (omega arith, omega (arith, active.1), omega arith)) in
          let size' = length-tab (λ l. (f j l).stage_num) 0 (g.len j) in
          elim (get_left_dependency-Passed numbers (lists i).index number (omega arith)) [
            | inl (none, same) ↦
                let no_left : r.0 ≡ 0 = none in
                (
                  (f i k).right_first.down_cont,
                  moved,
                  rw (later, before, read, no_left) refl,
                  (refl, inl (refl, same ∙ cursor)),
                  to,
                )
            | inr (from, within, e') ↦
                let frame =
                  h.frames j r.0 (omega arith, omega (arith, active.1), omega (arith, size')) in
                let some_left : r.0 == 0 ≡ false = ground arith in
                (
                  (f j r.0).right_first.right_cont,
                  moved,
                  rw (later, before, read, some_left, frame) refl,
                  (refl, inr (j, r.0, e, omega arith, omega arith, omega (arith, size'), refl, e')),
                  to,
                )
          ]
      | inr first ↦ (
        (f i k).right_first.down_cont,
        lists i,
        rw first refl,
        (refl, inl (refl, h.index i active.0 active.1)),
        λ lt. absurd (ground arith),
      )
    ]

    pub cilk_stage_wait-started :
        (number : ℕ)
        → (right : ℕ) × (list' : StageList) × (cilk_stage_wait o i number c
            ≡ some (started o c i number right (f i k).down_first.down_cont list'))
          × Placed i k right list'
          × Moved i number list'
    unfolding cilk_stage_wait
    cilk_stage_wait-started number =
        let (right, list', left, placed, moved) = wait_left-Placed number in
        let room : IsRoomy list'.items = rw placed.0 (h.roomy i active.0 active.1) in
        (
          right,
          list',
          rw (found_here, last_here, left)
              (start_stage-started o c i number right (f i k).down_first.down_cont list' room),
          placed,
          moved,
        )

    pub Placed-Tracks :
        (number right : ℕ) (list' list : StageList)
        → Placed i k right list'
        → (let c' = started o c i number right (f i k).down_first.down_cont list' in
            Recorded o limit f dep c' i (g.len i) list
            → Tracks o limit pos f dep (extended i list.index g) c' (with_list i list lists) q)
    Placed-Tracks number right list' list placed recorded =
        let down = (f i k).down_first.down_cont in
        let g' = extended i list.index g in
        let v = right_strands f dep in
        let nodes =
          started-nodes o limit pos f dep g c lists q i number right down list' list h active
            placed.0 recorded in
        let right_at : (f i (suc k)).right_first.current ≡ right = rw (← size) nodes.0 in
        let down_at : (f i (suc k)).down_first.current ≡ down = rw (← size) nodes.1 in
        let cursor : g'.cursor i ≡ list.index = rw (eqb_refl i) refl in
        let dep_at : suc (dep i (suc k)) ≡ g'.cursor i = rw (← size) (recorded.2 ∙ sym cursor) in
        let down_place : DownPlace o c.english (down_strands f dep) i (suc k) = record {
          in_order = rw down_at (h.down_first.in_down i k (active.0, active.1, omega arith));
          after_down = λ m e.
              let e' : m ≡ k = omega arith in
              ap (λ x. (f i x).down_first.down_cont) e' ∙ sym down_at;
          after_right = λ j e. absurd (omega arith);
        } in
        let finish =
          λ (left : LeftOf g g' v i (suc k)) (right_place : RightPlace o c.hebrew g g' v i (suc k)).
            started-Tracks o limit pos f dep g c lists q i number right down list' list h active
              placed.0 recorded (subst (λ x. LeftOf g g' v i x) (sym size) left)
              (subst (λ x. RightPlace o c.hebrew g g' v i x) (sym size) right_place)
              (subst (λ x. DownPlace o c.english (down_strands f dep) i x) (sym size) down_place) in
        elim placed.1 [
          | inl (at, same) ↦
              let unmoved : g'.cursor i ≡ g.cursor i = cursor ∙ nodes.2 ∙ same in
              let left = in_row-LeftOf g g' v h.shaped i k active.0 active.1 size dep_at unmoved in
              finish left (
                in_row-RightPlace o c.hebrew g v h.shaped h.right_first g' i k active.0 active.1
                  size left (right_at ∙ at) unmoved)
          | inr (j, l, e, first, from, within, at, moved) ↦
              let to : g'.cursor i ≡ suc l = cursor ∙ nodes.2 ∙ moved in
              let left = left-LeftOf g g' v h.shaped i k j l e within dep_at to in
              finish left (
                left-RightPlace o c.hebrew g v h.shaped h.right_first g' i k active.0 active.1 size
                  left j l e first from within (right_at ∙ at) to)
        ]
