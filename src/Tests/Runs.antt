-- ===== src/Tests/Runs.antt =====
-- A pipeline of two iterations with two stages each; the second stage of the second waits.
use pracer.Base.{
  ℕ, zero, suc, ◌+◌, ◌≤◌, ◌<◌, ◌≡◌, ◌↔◌, ◌&&◌, refl, Bool, true, Option, none, some, [], ◌∷◌, ◌==◌,
  if◌then◌else◌, arith, inl, subst,
}
use pracer.Pipeline.OmOrder.Nodes.{nodes_order}
use pracer.Pipeline.Items.{get, append, new_items}
use pracer.Pipeline.Iterations.{
  new_iterations, get_index, get_stage_frame_list, insert_stage_frame_list, next_place,
}
use pracer.Pipeline.Left.{get_left_dependency}
use pracer.Pipeline.Strands.{
  StageFrame, StageList, Control, cilk_stage_first, cilk_stage_wait, cilk_stage, blank_frame,
}
use pracer.Pipeline.Rows.{Shape}
use pracer.Pipeline.Rows.Shapes.{opened, extended}
use pracer.Pipeline.Run.{no_rows, Run, begin, first, wait, stage}
use pracer.Pipeline.Run.Tracked.{cilk_stage_first_returns, stages_return}
use pracer.Pipeline.Run.Chains.{precedes_both}
use pracer.Pipeline.Run.Cuts.{Rising, Timely}
use pracer.Pipeline.Run.Routes.{Route, precedes_both-Route}

abbrev start : Control nodes_order
start = record {
  english = 0 ∷ [];
  hebrew = 0 ∷ [];
  iterations = new_iterations 2;
  cur_right = 0;
  cur_down = 0;
}

abbrev or_start : Option (Control nodes_order) → Control nodes_order
or_start none = start
or_start (some c) = c

abbrev no_list : StageList
no_list = record { items = new_items blank_frame; iter_num = 0; stage_num = 0; index = 0 }

abbrev or_empty : Option StageList → StageList
or_empty none = no_list
or_empty (some list) = list

abbrev or_blank : Option StageFrame → StageFrame
or_blank none = blank_frame
or_blank (some sf) = sf

abbrev list_of : Control nodes_order → ℕ → StageList
list_of c i = or_empty (get_stage_frame_list c.iterations i)

abbrev c1 : Control nodes_order
c1 = or_start (cilk_stage_first nodes_order 1 start)

abbrev c2 : Control nodes_order
c2 = or_start (cilk_stage nodes_order 1 1 c1)

abbrev c3 : Control nodes_order
c3 = or_start (cilk_stage_first nodes_order 2 c2)

abbrev c4 : Control nodes_order
c4 = or_start (cilk_stage_wait nodes_order 2 1 c3)

-- A frame beyond the end of a list.
abbrev later_frame : ℕ → StageFrame
later_frame k = record blank_frame { stage_num = 100 + k }

abbrev frames_of : StageList → ℕ → StageFrame
frames_of list zero = or_blank (get list.items 0)
frames_of list (suc zero) = or_blank (get list.items 1)
frames_of list (suc (suc k)) = later_frame k

abbrev frames : ℕ → ℕ → StageFrame
frames zero k = later_frame k
frames (suc zero) k = frames_of (list_of c4 1) k
frames (suc (suc zero)) k = frames_of (list_of c4 2) k
frames (suc (suc (suc i))) k = later_frame k

abbrev waits : ℕ → ℕ → Bool
waits i k = (i == 2) && (k == 1)

abbrev deps : ℕ → ℕ → ℕ
deps i k = if i == 2 then k else 0

-- The rows before the wait, and those after it.
abbrev rows_3 : Shape
rows_3 = opened (extended 1 (list_of c2 1).index (opened no_rows))

abbrev rows : Shape
rows = extended 2 (list_of c4 2).index rows_3

two_rows : Run nodes_order 2 frames deps rows c4
unfolding cilk_stage_first cilk_stage cilk_stage_wait insert_stage_frame_list next_place
    new_iterations get_stage_frame_list get_index get append new_items get_left_dependency
two_rows =
    wait 2 1 (list_of c4 2)
      (first (list_of c3 2)
        (stage 1 1 (list_of c2 1)
          (first (list_of c1 1) (begin start refl refl refl) refl (refl, refl, refl))
          (omega arith, omega arith, omega arith) refl (refl, refl, refl))
        refl (refl, refl, refl))
      (omega arith, omega arith, omega arith) refl (refl, refl, refl)

frames-Rising : Rising frames
unfolding cilk_stage_first cilk_stage cilk_stage_wait insert_stage_frame_list next_place
    new_iterations get_stage_frame_list get_index get append new_items get_left_dependency
frames-Rising zero k = omega arith
frames-Rising (suc zero) zero = omega arith
frames-Rising (suc zero) (suc zero) = omega arith
frames-Rising (suc zero) (suc (suc k)) = omega arith
frames-Rising (suc (suc zero)) zero = omega arith
frames-Rising (suc (suc zero)) (suc zero) = omega arith
frames-Rising (suc (suc zero)) (suc (suc k)) = omega arith
frames-Rising (suc (suc (suc i))) k = omega arith

past : (j l : ℕ) → 2 ≡ suc j → 2 ≤ l → 1 < (frames j l).stage_num
past zero l e le = absurd (omega arith)
past (suc zero) zero e le = absurd (omega arith)
past (suc zero) (suc zero) e le = absurd (omega arith)
past (suc zero) (suc (suc l)) e le = omega arith
past (suc (suc j)) l e le = absurd (omega arith)

at_one : (j : ℕ) → 2 ≡ suc j → j ≡ 1
at_one j e = omega arith

two_rows-Timely : Timely frames waits nodes_order 2 deps rows c4 two_rows
unfolding cilk_stage_first cilk_stage cilk_stage_wait insert_stage_frame_list next_place
    new_iterations get_stage_frame_list get_index get append new_items get_left_dependency two_rows
two_rows-Timely = (
  (((tt, refl), refl), refl),
  refl,
  λ j l e pos le. past j l e (subst (λ x. rows_3.len x ≤ l) (at_one j e) le),
)

precedes_both-Route_example :
    precedes_both nodes_order c4 (frames 1 1) (frames 2 1) ≡ true ↔ Route frames waits 1 1 2 1
precedes_both-Route_example =
    precedes_both-Route nodes_order 2 (omega arith) frames waits deps frames-Rising rows c4 1 1 2 1
      two_rows two_rows-Timely (omega arith, omega arith, omega arith)
      (omega arith, omega arith, omega arith) (inl (omega arith))

cilk_stage_first_returns_example :
    (c' : Control nodes_order) × (cilk_stage_first nodes_order 3 c4 ≡ some c')
cilk_stage_first_returns_example =
    cilk_stage_first_returns nodes_order 2 (omega arith) frames deps rows c4 two_rows

stages_return_example :
    ((c' : Control nodes_order) × (cilk_stage_wait nodes_order 1 5 c4 ≡ some c'))
    × ((c' : Control nodes_order) × (cilk_stage nodes_order 1 5 c4 ≡ some c'))
stages_return_example =
    stages_return nodes_order 2 (omega arith) frames deps rows c4 1 5 two_rows
      (omega arith, omega arith, omega arith)
