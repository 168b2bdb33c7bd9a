-- ===== src/Scheduler.antt =====
-- The children of a full frame, of batched-piper/runtime/scheduler.c: a list linked both ways
-- through the siblings, with the parent pointing to its right end. A frame is an address, 0 NULL.
pub mod Children
pub mod Unlink
pub mod The
pub mod Random
use pracer.Base.{ℕ, Option, none, some, ◌==◌, Bool, if◌then◌else◌}

pub record Links : Type 0 where
  pub left_sibling : ℕ → ℕ
  pub right_sibling : ℕ → ℕ
  pub rightmost_child : ℕ → ℕ

abbrev pub put : ℕ → ℕ → (ℕ → ℕ) → ℕ → ℕ
put x v f y = if y == x then v else f y

unfoldable pub double_link : (left_ff right_ff : ℕ) → Links → Links
double_link left_ff right_ff s = record s {
  right_sibling = if left_ff == 0 then s.right_sibling else put left_ff right_ff s.right_sibling;
  left_sibling = if right_ff == 0 then s.left_sibling else put right_ff left_ff s.left_sibling;
}

unfoldable pub push_child : (parent_ff child_ff : ℕ) → Links → Links
push_child parent_ff child_ff s =
    let s1 = double_link (s.rightmost_child parent_ff) child_ff s in
    let s2 = double_link child_ff 0 s1 in
    record s2 { rightmost_child = put parent_ff child_ff s2.rightmost_child }

abbrev pub clear : ℕ → Links → (ℕ → ℕ) → Links
clear child_ff s rightmost = record {
  left_sibling = put child_ff 0 s.left_sibling;
  right_sibling = put child_ff 0 s.right_sibling;
  rightmost_child = rightmost;
}

-- A failed assertion is none.
unfoldable pub unlink_child : (parent_ff child_ff : ℕ) → Links → Option Links
unlink_child parent_ff child_ff s =
    let left = s.left_sibling child_ff in
    let right = s.right_sibling child_ff in
    let s1 = double_link left right s in
    if right == 0
    then (if s1.rightmost_child parent_ff == child_ff
        then some (clear child_ff s1 (put parent_ff left s1.rightmost_child))
        else none)
    else some (clear child_ff s1 s1.rightmost_child)
