-- ===== src/Pipeline/Strands.antt =====
-- PiperRDControl of rdtool/include/piper_rd.h: the strands of a pipeline, a frame for each stage of
-- each iteration, with its nodes in the two orders.
pub mod Places
use pracer.Base.{
  ℕ, zero, suc, ◌+◌, ◌-◌, Bool, true, false, Option, none, some, List, [], ◌∷◌, ◌++◌, ◌==◌, ltb,
  if◌then◌else◌,
}
use pracer.Pipeline.OmOrder.{OmOrder}
use pracer.Pipeline.Items.{Items, new_items, append, get}
use pracer.Pipeline.Iterations.{
  Iterations, get_index, get_stage_frame_list, insert_stage_frame_list,
}
use pracer.Pipeline.Left.{get_left_dependency}

pub record Order : Type 0 where
  pub current : ℕ
  pub right_cont : ℕ
  pub down_cont : ℕ

pub record StageFrame : Type 0 where
  pub iter_num : ℕ
  pub stage_num : ℕ
  pub down_first : Order
  pub right_first : Order

-- A List<StageFrame> with its cursor; cachedLeftStage and latestWaitStage are never read.
pub record StageList : Type 0 where
  pub items : Items StageFrame
  pub iter_num : ℕ
  pub stage_num : ℕ
  pub index : ℕ

abbrev pub no_order : Order
no_order = record { current = 0; right_cont = 0; down_cont = 0 }

-- What a new array holds is not read.
abbrev pub blank_frame : StageFrame
blank_frame = record { iter_num = 0; stage_num = 0; down_first = no_order; right_first = no_order }

infixl 5 ◌>>=◌
abbrev pub ◌>>=◌ : {A B : Type 0} → Option A → (A → Option B) → Option B
none >>= f = none
some a >>= f = f a

-- The stage numbers of n frames from an index on. none if `get` throws for one of them, or reads
-- beyond the array, also where the loop over them ends before.
abbrev pub stages_from : Items StageFrame → (index n : ℕ) → Option (List ℕ)
stages_from l index zero = some []
stages_from l index (suc n) =
    let rest = stages_from l (suc index) n in
    get l index >>= λ sf. rest >>= λ numbers. some (sf.stage_num ∷ numbers)

abbrev pub stages : Items StageFrame → Option (List ℕ)
stages l = stages_from l 0 l.length

-- `g_english` and `g_hebrew`, the ring of iterations, and the nodes of the running strand. An
-- exception, a call through NULL and an index out of bounds are none.
module _ {S : Type 0} (o : OmOrder S) where
  pub record Control : Type 0 where
    pub english : S
    pub hebrew : S
    pub iterations : Iterations StageList
    pub cur_right : ℕ
    pub cur_down : ℕ

  unfoldable pub create_order : StageFrame → (english hebrew : S) → StageFrame × S × S
  create_order sf english hebrew =
      let (right, h1) = o.insert sf.right_first.current hebrew in
      let (down, h2) = o.insert right h1 in
      let (down', e1) = o.insert sf.down_first.current english in
      let (right', e2) = o.insert down' e1 in
      (
        record sf {
          right_first = record {
            current = sf.right_first.current;
            right_cont = right;
            down_cont = down;
          };
          down_first = record {
            current = sf.down_first.current;
            right_cont = right';
            down_cont = down';
          };
        },
        e2,
        h2,
      )

  -- A frame whose strand has the given nodes.
  abbrev pub frame_at : (iter_num stage_num right down : ℕ) → StageFrame
  frame_at iter_num stage_num right down = record {
    iter_num = iter_num;
    stage_num = stage_num;
    down_first = record { current = down; right_cont = 0; down_cont = 0 };
    right_first = record { current = right; right_cont = 0; down_cont = 0 };
  }

  -- The list of an iteration, changed in place.
  abbrev pub update_list : ℕ → StageList → Iterations StageList → Iterations StageList
  update_list iter_num list s = record s {
    p = λ i. if i == get_index s iter_num then some list else s.p i;
  }

  abbrev pub last_frame : StageList → Option StageFrame
  last_frame list = get list.items (list.items.length - 1)

  abbrev pub add_frame : StageFrame → StageList → Option StageList
  add_frame sf list = append blank_frame sf list.items >>= λ items.
      some (record list { items = items; stage_num = sf.stage_num })

  -- The nodes of the first strand of an iteration, `right` and `down`.
  unfoldable pub first_nodes : ℕ → Control → Option (ℕ × ℕ)
  first_nodes iter_num c =
      if ltb 1 iter_num
      then (get_stage_frame_list c.iterations (iter_num - 1) >>= λ pre.
          get pre.items 0 >>= λ sibling.
          some (sibling.right_first.right_cont, sibling.down_first.right_cont))
      else some (o.get_base c.hebrew, o.get_base c.english)

  unfoldable pub cilk_stage_first : ℕ → Control → Option Control
  unfolding create_order first_nodes
  cilk_stage_first iter_num c = first_nodes iter_num c >>= λ (right, down).
      let (sf, e, h) = create_order (frame_at iter_num 0 right down) c.english c.hebrew in
      append blank_frame sf (new_items blank_frame) >>= λ items.
      let list : StageList = record {
        items = items;
        iter_num = iter_num;
        stage_num = 0;
        index = 1;
      } in
      insert_stage_frame_list iter_num list c.iterations >>= λ its.
      some
        (record { english = e; hebrew = h; iterations = its; cur_right = right; cur_down = down })

  -- The end of cilkStageWait and of cilkStage.
  abbrev pub start_stage : (iter_num stage right down : ℕ) → StageList → Control → Option Control
  start_stage iter_num stage right down list c =
      let (sf, e, h) = create_order (frame_at iter_num stage right down) c.english c.hebrew in
      add_frame sf list >>= λ list'. some (record {
        english = e;
        hebrew = h;
        iterations = update_list iter_num list' c.iterations;
        cur_right = right;
        cur_down = down;
      })

  -- The node that a wait for the iteration before gives in place of the parent's, and the list with
  -- its cursor moved on.
  unfoldable pub wait_left :
      (iter_num stage : ℕ) → StageList → (right : ℕ) → Control → Option (ℕ × StageList)
  wait_left iter_num stage list right c =
      if ltb 1 iter_num
      then (get_stage_frame_list c.iterations (iter_num - 1) >>= λ pre.
          stages pre.items >>= λ numbers.
          let (left, index) = get_left_dependency numbers list.index stage in
          let moved = record list { index = index } in
          if left == 0
          then some (right, moved)
          else (get pre.items left >>= λ sibling. some (sibling.right_first.right_cont, moved)))
      else some (right, list)

  unfoldable pub cilk_stage_wait : (iter_num stage : ℕ) → Control → Option Control
  unfolding create_order wait_left
  cilk_stage_wait iter_num stage c = get_stage_frame_list c.iterations iter_num >>= λ list.
      last_frame list >>= λ parent.
      wait_left iter_num stage list parent.right_first.down_cont c >>= λ (right, list').
      start_stage iter_num stage right parent.down_first.down_cont list' c

  unfoldable pub cilk_stage : (iter_num stage : ℕ) → Control → Option Control
  unfolding create_order
  cilk_stage iter_num stage c = get_stage_frame_list c.iterations iter_num >>= λ list.
      last_frame list >>= λ parent.
      start_stage iter_num stage parent.right_first.down_cont parent.down_first.down_cont list c
