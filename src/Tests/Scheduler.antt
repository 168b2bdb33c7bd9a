-- ===== src/Tests/Scheduler.antt =====
-- A parent with one child and then two.
use pracer.Base.{◌≡◌, refl, some, [], ◌∷◌, ◌++◌}
use pracer.Scheduler.{Links, push_child, unlink_child}
use pracer.Scheduler.Children.{Holds, without, push_child-Holds}
use pracer.Scheduler.Unlink.{unlink_child-Holds}

abbrev no_children : Links
no_children = record { left_sibling = λ _. 0; right_sibling = λ _. 0; rightmost_child = λ _. 0 }

no_children-Holds : Holds no_children 9 []
no_children-Holds = record { proper = tt; rights = λ x has. cc; lefts = λ x has. cc; last = refl }

abbrev one_child : Links
one_child = push_child 9 5 no_children

one_child-Holds : Holds one_child 9 (5 ∷ [])
one_child-Holds = push_child-Holds no_children 9 5 [] no_children-Holds refl refl

push_child-Holds_example : Holds (push_child 9 7 one_child) 9 ((5 ∷ []) ++ 7 ∷ [])
push_child-Holds_example = push_child-Holds one_child 9 7 (5 ∷ []) one_child-Holds refl refl

two_children-Holds : Holds (push_child 9 7 one_child) 9 (5 ∷ 7 ∷ [])
two_children-Holds = push_child-Holds one_child 9 7 (5 ∷ []) one_child-Holds refl refl

unlink_child-Holds_example :
    (s' : Links) × (unlink_child 9 5 (push_child 9 7 one_child) ≡ some s')
    × Holds s' 9 (without 5 (5 ∷ 7 ∷ []))
    × (s'.left_sibling 5 ≡ 0)
    × (s'.right_sibling 5 ≡ 0)
unlink_child-Holds_example =
    unlink_child-Holds (push_child 9 7 one_child) 9 5 (5 ∷ 7 ∷ []) two_children-Holds refl
