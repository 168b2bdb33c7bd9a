-- ===== src/Tests/ShadowStack.antt =====
-- A spawn that returns and one whose continuation is stolen.
use pracer.Base.{ℕ, ◌≡◌, ◌<◌, refl, Option, none, some, List, [], ◌∷◌, arith, inr}
use pracer.Pipeline.OmOrder.Nodes.{nodes_order}
use pracer.ShadowStack.Stack.{Stack, new_stack, push, pop, ancestor, size}
use pracer.ShadowStack.Stack.Kept.{Fits, pop-push}
use pracer.ShadowStack.Callbacks.{
  ◌>>=◌, blank, Tool, steal_top, init_strand_first, do_steal_success, do_detach_begin,
  do_sync_begin, do_leave_end, do_leave_stolen,
}

abbrev filled : Stack ℕ
filled = record { stack = λ i. some i; capacity = 256; head = 127; tail = 0 }

filled-Fits : Fits 0 filled
filled-Fits = (omega arith, omega arith, inr (omega arith))

pop-push_example :
    Fits 0 (pop 0 (push 0 filled))
    × ((pop 0 (push 0 filled)).head ≡ filled.head)
    × ((i : ℕ) → i < (push 0 filled).head → (pop 0 (push 0 filled)).stack i ≡ filled.stack i)
pop-push_example = pop-push 0 filled filled-Fits (omega arith)

abbrev tool : Tool nodes_order
tool = record { english = 0 ∷ []; hebrew = 0 ∷ []; frames = λ _. new_stack blank }

-- Spawn, return of the child, sync.
abbrev serial : Option (Tool nodes_order)
serial = init_strand_first nodes_order 0 tool >>= λ t. do_detach_begin nodes_order 0 t >>= λ t.
    do_leave_end nodes_order 0 t >>= λ (last, t). do_sync_begin nodes_order 0 t

-- Spawn, theft of the continuation, the child notices.
abbrev stolen : Option (Tool nodes_order)
stolen = init_strand_first nodes_order 0 tool >>= λ t. do_detach_begin nodes_order 0 t >>= λ t.
    do_steal_success nodes_order 1 0 t >>= λ t. do_leave_stolen nodes_order 0 t

abbrev top_strand : ℕ → Option (Tool nodes_order) → Option (Option ℕ × Option ℕ × ℕ)
top_strand w none = none
top_strand w (some t) =
    ancestor 0 (t.frames w) >>= λ f. some (f.current_english, f.current_hebrew, size (t.frames w))

abbrev orders_of : Option (Tool nodes_order) → List ℕ × List ℕ
orders_of none = ([], [])
orders_of (some t) = (t.english, t.hebrew)

-- The child returns and the function goes on at its sync node.
run_serial : top_strand 0 serial ≡ some (some 1, some 1, 1)
unfolding init_strand_first do_detach_begin do_leave_end do_sync_begin new_stack push pop
run_serial = refl

run_orders_of : orders_of serial ≡ (0 ∷ 2 ∷ 3 ∷ 1 ∷ [], 0 ∷ 2 ∷ 3 ∷ 1 ∷ [])
unfolding init_strand_first do_detach_begin do_leave_end do_sync_begin new_stack push pop
run_orders_of = refl

-- The thief runs the continuation.
run_thief : top_strand 1 stolen ≡ some (some 3, some 2, 1)
unfolding init_strand_first do_detach_begin do_leave_end do_sync_begin new_stack do_steal_success
    do_leave_stolen push steal_top pop
run_thief = refl

run_victim : top_strand 0 stolen ≡ some (some 1, some 1, 1)
unfolding init_strand_first do_detach_begin do_leave_end do_sync_begin new_stack do_steal_success
    do_leave_stolen push steal_top pop
run_victim = refl
