-- ===== src/Pipeline/Run/Started.antt =====
-- The end of cilkStageWait and of cilkStage.
use pracer.Base.{
  ℕ, suc, ◌≤◌, ◌<◌, ◌≡◌, ◌∙◌, refl, sym, ap, true, false, some, some_inj, ◌==◌, Bool-cases, inl,
  inr, arith, eqb_refl,
}
use pracer.Pipeline.OmOrder.{OmOrder}
use pracer.Pipeline.Items.{get}
use pracer.Pipeline.Items.Laws.{IsRoomy, get-appended, append-appended, appended, appended-length}
use pracer.Pipeline.Iterations.{get_stage_frame_list, get_index}
use pracer.Pipeline.Iterations.Change.{with_list, change-Laid}
use pracer.Pipeline.Strands.{
  StageFrame, StageList, Control, create_order, start_stage, update_list, frame_at, blank_frame,
}
use pracer.Pipeline.Strands.Places.{Behind, create_order-Behind}
use pracer.Pipeline.Rows.{Shape}
use pracer.Pipeline.Rows.Shapes.{extended, extended-Grown}
use pracer.Pipeline.Rows.Grow.{LeftOf}
use pracer.Pipeline.Rows.Right.{RightPlace}
use pracer.Pipeline.Rows.Down.{DownPlace}
use pracer.Pipeline.Run.{right_strands, down_strands, Active, Recorded}
use pracer.Pipeline.Run.Tracks.{Tracks, grown-Tracks}

-- The list with the new frame.
abbrev pub added : StageFrame → StageList → StageList
added sf list = record list { items = appended blank_frame sf list.items; stage_num = sf.stage_num }

module _ {S : Type 0} (o : OmOrder S) (c : Control o) (i stage right down : ℕ)
    (list' : StageList) where
  abbrev pub made : StageFrame × S × S
  made = create_order o (frame_at o i stage right down) c.english c.hebrew

  abbrev pub started : Control o
  started = record {
    english = made.1;
    hebrew = made.2;
    iterations = update_list o i (added made.0 list') c.iterations;
    cur_right = right;
    cur_down = down;
  }

  -- The frame is written within the array.
  pub start_stage-started :
      IsRoomy list'.items → start_stage o i stage right down list' c ≡ some started
  unfolding create_order
  start_stage-started room = rw (append-appended blank_frame made.0 list'.items room) refl

  found_started : get_stage_frame_list started.iterations i ≡ some (added made.0 list')
  unfolding get_stage_frame_list get_index
  found_started = rw (eqb_refl (get_index c.iterations i)) refl

  -- What the strand's list records is the frame that createOrder made.
  pub started-Recorded :
      (limit : ℕ) (f : ℕ → ℕ → StageFrame) (dep : ℕ → ℕ → ℕ) (k : ℕ) (list : StageList)
      → IsRoomy list'.items
      → list'.items.length ≡ k
      → Recorded o limit f dep started i k list
      → (list ≡ added made.0 list') × (f i k ≡ made.0)
  started-Recorded limit f dep k list room size (found, at, after) =
      let same : added made.0 list' ≡ list = some_inj (sym found_started ∙ found) in
      let last : k == list'.items.length ≡ true = rw size (eqb_refl k) in
      let new : get (added made.0 list').items k ≡ some made.0 =
        (get-appended blank_frame made.0 list'.items room).2 k ∙ rw last refl in
      (sym same, some_inj (sym (ap (λ l. get l.items k) same ∙ at) ∙ new))

-- A strand that createOrder makes, if the place is right, is one more strand of its row.
module _ {S : Type 0} (o : OmOrder S) (limit : ℕ) (pos : 1 ≤ limit) (f : ℕ → ℕ → StageFrame)
    (dep : ℕ → ℕ → ℕ) (g : Shape) (c : Control o) (lists : ℕ → StageList) (q i stage right down : ℕ)
    (list' list : StageList) (h : Tracks o limit pos f dep g c lists q)
    (active : Active o limit g i) (same_items : list'.items ≡ (lists i).items)
    (recorded : Recorded o limit f dep
      (started o c i stage right down list')
      i
      (g.len i)
      list) where
  abbrev after : Shape
  after = extended i list.index g

  room : IsRoomy list'.items
  room = rw same_items (h.roomy i active.0 active.1)

  size : list'.items.length ≡ g.len i
  size = rw same_items (h.length i active.0 active.1)

  both :
      (list ≡ added (made o c i stage right down list').0 list')
      × (f i (g.len i) ≡ (made o c i stage right down list').0)
  both = started-Recorded o c i stage right down list' limit f dep (g.len i) list room size recorded

  -- The nodes of the new strand, and its index.
  pub started-nodes :
      ((f i (g.len i)).right_first.current ≡ right)
      × ((f i (g.len i)).down_first.current ≡ down)
      × (list.index ≡ list'.index)
  unfolding create_order
  started-nodes = (
    ap (λ sf. sf.right_first.current) both.1,
    ap (λ sf. sf.down_first.current) both.1,
    ap (λ l. l.index) both.0,
  )

  pub started-stage : (f i (g.len i)).stage_num ≡ stage
  unfolding create_order
  started-stage = ap (λ sf. sf.stage_num) both.1

  behind :
      o.has c.english down ≡ true
      → o.has c.hebrew right ≡ true
      → (let sf = f i (g.len i) in
          let c' = started o c i stage right down list' in
          Behind o c.hebrew c'.hebrew sf.right_first.current sf.right_first.right_cont
            sf.right_first.down_cont
          × Behind o c.english c'.english sf.down_first.current sf.down_first.down_cont
              sf.down_first.right_cont)
  unfolding create_order
  behind in_e in_h =
      let at = create_order-Behind o (frame_at o i stage right down) c.english c.hebrew in_e in_h in
      rw both.1 (at.1, at.0)

  frames : (m : ℕ) → m < suc (g.len i) → get list.items m ≡ some (f i m)
  frames m lt = elim (Bool-cases (m == g.len i)) [
    | inl last ↦ let e : m ≡ g.len i = ground arith in rw e recorded.1
    | inr old ↦
        let law =
          (get-appended blank_frame (made o c i stage right down list').0 list'.items room).2 m in
        let other : m == list'.items.length ≡ false = rw size old in
        let was : get list'.items m ≡ some (f i m) =
          rw same_items (h.frames i m (active.0, active.1, ground arith)) in
        rw both.0 (law ∙ rw other was)
  ]

  pub started-Tracks :
      LeftOf g after (right_strands f dep) i (g.len i)
      → RightPlace o c.hebrew g after (right_strands f dep) i (g.len i)
      → DownPlace o c.english (down_strands f dep) i (g.len i)
      → Tracks o limit pos f dep after
          (started o c i stage right down list')
          (with_list i list lists)
          q
  started-Tracks left right_place down_place =
      let at =
        behind (rw (← started-nodes.1) down_place.in_order)
          (rw (← started-nodes.0) right_place.in_order) in
      let laws = get-appended blank_frame (made o c i stage right down list').0 list'.items room in
      let laid =
        change-Laid lists limit pos q g.count i c.iterations
          (added (made o c i stage right down list').0 list') h.laid active.0 active.1
          (omega (arith, active.2)) in
      grown-Tracks o limit pos f dep g after c _ lists q q i (g.len i) list h
        (extended-Grown g i list.index active.0 active.1) (rw both.0 laid) (rw both.0 laws.0)
        (rw both.0 (
          appended-length blank_frame (made o c i stage right down list').0 list'.items room
          ∙ ap suc size))
        (rw (eqb_refl i) refl) frames left right_place down_place at.0 at.1
