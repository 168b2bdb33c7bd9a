-- ===== src/Tests/Pipeline.antt =====
-- A list of stages, a ring of three iterations, and a pipeline of two iterations.
use pracer.Base.{
  ℕ, ◌+◌, ◌-◌, ◌≤◌, ◌<◌, ◌≡◌, refl, Option, none, some, List, [], ◌∷◌, ◌==◌, if◌then◌else◌, arith,
  drop,
}
use pracer.Pipeline.OmOrder.Nodes.{nodes_order}
use pracer.Pipeline.Items.{new_items, append, get}
use pracer.Pipeline.Iterations.{
  Iterations, new_iterations, get_index, get_stage_frame_list, insert_stage_frame_list, next_place,
  insert_all,
}
use pracer.Pipeline.Iterations.Window.{insert_all-window}
use pracer.Pipeline.Left.{get_left_dependency, up_to, get_left_dependency_last}
use pracer.Pipeline.Strands.{Control, cilk_stage_first, cilk_stage_wait, cilk_stage}

abbrev self_list : ℕ → ℕ
self_list i = i

insert_all-window_example :
    (s : Iterations ℕ) × (insert_all self_list 5 (new_iterations 2) ≡ some s)
    × ((j : ℕ) → 1 ≤ j → j ≤ 5 → 5 < j + (2 + 1) → get_stage_frame_list s j ≡ some (self_list j))
insert_all-window_example = insert_all-window self_list 2 (omega arith) 5

-- With no throttle limit at all the third insertion leaves the arrays.
insert_all_unthrottled : insert_all self_list 3 (new_iterations 0) ≡ none
unfolding insert_all insert_stage_frame_list next_place new_iterations
insert_all_unthrottled = refl

abbrev stages_before : List ℕ
stages_before = 0 ∷ 1 ∷ 4 ∷ 6 ∷ []

get_left_dependency_last_example : get_left_dependency stages_before 1 5 ≡ (
  if up_to 5 (drop 1 stages_before) == 0 then 0 else 1 + up_to 5 (drop 1 stages_before) - 1,
  1 + up_to 5 (drop 1 stages_before),
)
get_left_dependency_last_example =
    get_left_dependency_last stages_before 1 5 (omega arith) (omega arith)

abbrev start : Control nodes_order
start = record {
  english = 0 ∷ [];
  hebrew = 0 ∷ [];
  iterations = new_iterations 2;
  cur_right = 0;
  cur_down = 0;
}

infixl 5 ◌>>=◌
abbrev ◌>>=◌ : {A B : Type 0} → Option A → (A → Option B) → Option B
none >>= f = none
some a >>= f = f a

-- Two iterations with a second stage each, the second of which waits.
abbrev two_iterations : Option (Control nodes_order)
two_iterations = cilk_stage_first nodes_order 1 start >>= λ c. cilk_stage nodes_order 1 1 c >>= λ c.
    cilk_stage_first nodes_order 2 c >>= λ c. cilk_stage_wait nodes_order 2 1 c

abbrev orders : Option (Control nodes_order) → List ℕ × List ℕ
orders none = ([], [])
orders (some c) = (c.english, c.hebrew)

run_orders :
    orders two_iterations
    ≡ (0 ∷ 1 ∷ 3 ∷ 4 ∷ 2 ∷ 5 ∷ 7 ∷ 8 ∷ 6 ∷ [], 0 ∷ 1 ∷ 5 ∷ 6 ∷ 2 ∷ 3 ∷ 7 ∷ 8 ∷ 4 ∷ [])
unfolding cilk_stage_first cilk_stage cilk_stage_wait insert_stage_frame_list next_place
    new_iterations get_stage_frame_list get_index get append new_items get_left_dependency
run_orders = refl
