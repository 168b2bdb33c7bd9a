-- ===== src/Pipeline/Run/First.antt =====
-- cilkStageFirst as a step of a run.
use pracer.Base.{
  ℕ, zero, suc, ◌-◌, ◌≤◌, ◌≡◌, ◌∙◌, refl, sym, ap, true, some, some_inj, arith, eqb_refl, lt→ltb,
  subst,
}
use pracer.Pipeline.OmOrder.{OmOrder}
use pracer.Pipeline.Items.{get, new_items}
use pracer.Pipeline.Items.Laws.{
  new_items-IsRoomy, get-appended, append-appended, appended, appended-length,
}
use pracer.Pipeline.Iterations.{Iterations, get_stage_frame_list}
use pracer.Pipeline.Iterations.Laid.{Laid}
use pracer.Pipeline.Iterations.Window.{Laid-window}
use pracer.Pipeline.Iterations.Change.{with_list, inserted}
use pracer.Pipeline.Strands.{
  StageFrame, StageList, Control, create_order, first_nodes, cilk_stage_first, frame_at,
  blank_frame,
}
use pracer.Pipeline.Strands.Places.{Behind, create_order-Behind}
use pracer.Pipeline.Rows.{Shape}
use pracer.Pipeline.Rows.Shapes.{opened, opened-Grown}
use pracer.Pipeline.Rows.Right.{RightPlace}
use pracer.Pipeline.Rows.Down.{DownPlace}
use pracer.Pipeline.Rows.Starts.{first-LeftOf, base-RightPlace, row-RightPlace}
use pracer.Pipeline.Run.{right_strands, down_strands, Recorded}
use pracer.Pipeline.Run.Tracks.{Tracks, grown-Tracks}

module _ {S : Type 0} (o : OmOrder S) (limit : ℕ) (pos : 1 ≤ limit) (f : ℕ → ℕ → StageFrame)
    (dep : ℕ → ℕ → ℕ) (g : Shape) (c : Control o) (lists : ℕ → StageList) (q : ℕ)
    (h : Tracks o limit pos f dep g c lists q) where
  -- The nodes that the first strand of row n + 1 starts at.
  abbrev Nodes : (n right down : ℕ) → Type 0
  Nodes zero right down = (right ≡ o.get_base c.hebrew) × (down ≡ o.get_base c.english)
  Nodes (suc n) right down =
      (right ≡ (f (suc n) 0).right_first.right_cont) × (down ≡ (f (suc n) 0).down_first.right_cont)

  first_nodes-Nodes :
      (n : ℕ)
      → n ≡ g.count
      → (right : ℕ) × (down : ℕ) × (first_nodes o (suc n) c ≡ some (right, down))
        × Nodes n right down
  unfolding first_nodes
  first_nodes-Nodes zero e = (o.get_base c.hebrew, o.get_base c.english, refl, (refl, refl))
  first_nodes-Nodes (suc n) e =
      let before =
        Laid-window lists limit pos q g.count c.iterations h.laid (suc n) (omega arith)
          (omega arith) (omega arith) in
      let prev : suc (suc n) - 1 ≡ suc n = omega arith in
      let started = h.shaped.started (suc n) (omega arith) (omega arith) in
      let frame = h.frames (suc n) 0 (omega arith, omega arith, started) in
      (
        (f (suc n) 0).right_first.right_cont,
        (f (suc n) 0).down_first.right_cont,
        rw (lt→ltb 1 (suc (suc n)) (omega arith), prev, before, frame) refl,
        (refl, refl),
      )

  abbrev first_list : (right down : ℕ) → StageList
  first_list right down = record {
    items =
        appended blank_frame
          (create_order o (frame_at o (suc g.count) 0 right down) c.english c.hebrew).0
          (new_items blank_frame);
    iter_num = suc g.count;
    stage_num = 0;
    index = 1;
  }

  abbrev made : (right down : ℕ) → StageFrame × S × S
  made right down = create_order o (frame_at o (suc g.count) 0 right down) c.english c.hebrew

  abbrev begun : (right down : ℕ) → Iterations StageList → Control o
  begun right down s = record {
    english = (made right down).1;
    hebrew = (made right down).2;
    iterations = s;
    cur_right = right;
    cur_down = down;
  }

  pub cilk_stage_first-begun :
      (right : ℕ) × (down : ℕ) × (s : Iterations StageList) × (q' : ℕ) × (cilk_stage_first o
          (suc g.count)
          c
        ≡ some (begun right down s))
      × Nodes g.count right down
      × Laid (with_list (suc g.count) (first_list right down) lists) limit pos q' (suc g.count) s
  unfolding cilk_stage_first
  cilk_stage_first-begun =
      let (right, down, nodes, which) = first_nodes-Nodes g.count refl in
      let (s, q', done, laid) =
        inserted lists limit pos q g.count c.iterations (first_list right down) h.laid in
      let fits =
        append-appended blank_frame (made right down).0 (new_items blank_frame)
          (new_items-IsRoomy blank_frame) in
      (right, down, s, q', rw (nodes, fits, done) refl, which, laid)

  module _ (right down : ℕ) (s : Iterations StageList) (q' : ℕ) (which : Nodes g.count right down)
      (laid : Laid
        (with_list (suc g.count) (first_list right down) lists)
        limit
        pos
        q'
        (suc g.count)
        s)
      (list : StageList)
      (recorded : Recorded o limit f dep (begun right down s) (suc g.count) 0 list) where
    found_first : get_stage_frame_list s (suc g.count) ≡ some (first_list right down)
    found_first =
        Laid-window (with_list (suc g.count) (first_list right down) lists) limit pos q'
          (suc g.count) s laid (suc g.count) (omega arith) (omega arith) (omega arith)
        ∙ rw (eqb_refl (suc g.count)) refl

    empty : (new_items blank_frame).length ≡ 0
    unfolding new_items
    empty = refl

    first_frame : get (first_list right down).items 0 ≡ some (made right down).0
    first_frame =
        (get-appended blank_frame (made right down).0 (new_items blank_frame)
            (new_items-IsRoomy blank_frame)).2
          0
        ∙ rw empty refl

    both : (list ≡ first_list right down) × (f (suc g.count) 0 ≡ (made right down).0)
    both =
        let same : first_list right down ≡ list = some_inj (sym found_first ∙ recorded.0) in
        (sym same, some_inj (sym (ap (λ l. get l.items 0) same ∙ recorded.1) ∙ first_frame))

    nodes :
        ((f (suc g.count) 0).right_first.current ≡ right)
        × ((f (suc g.count) 0).down_first.current ≡ down)
        × (dep (suc g.count) 0 ≡ 0)
    unfolding create_order
    nodes = (
      ap (λ sf. sf.right_first.current) both.1,
      ap (λ sf. sf.down_first.current) both.1,
      let e : suc (dep (suc g.count) 0) ≡ 1 = recorded.2 ∙ ap (λ l. l.index) both.0 in omega arith,
    )

    behind :
        o.has c.english down ≡ true
        → o.has c.hebrew right ≡ true
        → (let sf = f (suc g.count) 0 in
            Behind o c.hebrew
              (made right down).2
              sf.right_first.current
              sf.right_first.right_cont
              sf.right_first.down_cont
            × Behind o c.english
                (made right down).1
                sf.down_first.current
                sf.down_first.down_cont
                sf.down_first.right_cont)
    unfolding create_order
    behind in_e in_h =
        let at =
          create_order-Behind o (frame_at o (suc g.count) 0 right down) c.english c.hebrew in_e
            in_h in
        rw both.1 (at.1, at.0)

    cursor : (opened g).cursor (suc g.count) ≡ 1
    cursor = rw (eqb_refl (suc g.count)) refl

    -- The same with the row's number by another name.
    nodes_at :
        (n : ℕ)
        → n ≡ g.count
        → ((f (suc n) 0).right_first.current ≡ right)
          × ((f (suc n) 0).down_first.current ≡ down)
          × (dep (suc n) 0 ≡ 0)
          × ((opened g).cursor (suc n) ≡ 1)
    nodes_at n e =
        subst
          (λ m.
            ((f (suc m) 0).right_first.current ≡ right)
            × ((f (suc m) 0).down_first.current ≡ down)
            × (dep (suc m) 0 ≡ 0)
            × ((opened g).cursor (suc m) ≡ 1))
          (sym e) (nodes.0, nodes.1, nodes.2, cursor)

    places :
        (n : ℕ)
        → n ≡ g.count
        → Nodes n right down
        → RightPlace o c.hebrew g (opened g) (right_strands f dep) (suc n) 0
          × DownPlace o c.english (down_strands f dep) (suc n) 0
    places zero e (right_at, down_at) =
        let at = nodes_at 0 e in
        (
          base-RightPlace o c.hebrew g (opened g) _ h.shaped h.right_first (sym e)
              (rw (at.0, right_at) (h.hebrew_base (sym e))),
          record {
            in_order = rw (at.1, down_at) (h.english_base (sym e));
            after_down = λ m e'. absurd (omega arith);
            after_right = λ j e' e'' pos. absurd (omega arith);
          },
        )
    places (suc n) e (right_at, down_at) =
        let at = nodes_at (suc n) e in
        let started = h.shaped.started (suc n) (omega arith) (omega arith) in
        (
          row-RightPlace o c.hebrew g (opened g) _ h.shaped h.right_first (suc n) e (omega arith)
              at.2 at.3 (at.0 ∙ right_at),
          record {
            in_order =
                rw (at.1, down_at)
                  (h.down_first.in_right (suc n) 0 (omega arith, omega arith, started));
            after_down = λ m e'. absurd (omega arith);
            after_right = λ j e' e'' pos.
                let same : j ≡ suc n = omega arith in
                ap (λ r. (f r 0).down_first.right_cont) same ∙ sym (at.1 ∙ down_at);
          },
        )

    pub begun-Tracks :
        Tracks o limit pos f dep
          (opened g)
          (begun right down s)
          (with_list (suc g.count) list lists)
          q'
    begun-Tracks =
        let (right_place, down_place) = places g.count refl which in
        let left =
          first-LeftOf g (opened g) (right_strands f dep) h.shaped g.count refl nodes.2 cursor in
        let at =
          behind (rw (← nodes.1) down_place.in_order) (rw (← nodes.0) right_place.in_order) in
        let new =
          get-appended blank_frame (made right down).0 (new_items blank_frame)
            (new_items-IsRoomy blank_frame) in
        let size =
          appended-length blank_frame (made right down).0 (new_items blank_frame)
            (new_items-IsRoomy blank_frame)
          ∙ ap suc empty in
        grown-Tracks o limit pos f dep g (opened g) c (begun right down s) lists q q' (suc g.count)
          0 list h (opened-Grown g) (rw both.0 laid) (rw both.0 new.0) (rw both.0 size)
          (ap (λ l. l.index) both.0 ∙ sym cursor)
          (λ m lt.
            let e : m ≡ 0 = omega arith in
            subst (λ x. get list.items x ≡ some (f (suc g.count) x)) (sym e) recorded.1)
          left right_place down_place at.0 at.1
