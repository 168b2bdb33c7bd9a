-- ===== src/Om/Label.antt =====
-- Labels: the constants of rdtool/src/om/om_common.h, and the arithmetic of get_new_label in
-- rdtool/src/om/blist.c. A label_t is a number below 2 ^ 64.
use pracer.Base.{
  ℕ, suc, ◌+◌, ◌-◌, ◌/◌, ◌%◌, ◌^◌, ◌≤◌, ◌<◌, ◌≡◌, ◌&&◌, Option, none, some, arith, ◌==◌,
  if◌then◌else◌, is_none,
}

abbrev pub max_label : ℕ
max_label = 2 ^ 64 - 1

abbrev pub node_interval : ℕ
node_interval = 2 ^ 58

abbrev pub sublist_size : ℕ
sublist_size = 64

abbrev pub max_level : ℕ
max_level = 64

-- `lab++` on a label_t.
abbrev inc : ℕ → ℕ
inc lab = (lab + 1) % 2 ^ 64

abbrev limit_of : Option ℕ → ℕ
limit_of none = max_label
limit_of (some l) = l

-- The label for a node between a base and its successor, `none` where the base is the last node.
-- The result 0 means that there is no room. `x >> 1` is `x / 2`, and `x & y & 1` is 1 exactly
-- where both are odd.
unfoldable pub midpoint : ℕ → Option ℕ → ℕ
midpoint base next =
    let next_label = limit_of next in
    let lab = (base / 2 + next_label / 2) % 2 ^ 64 in
    let lab = if (base % 2 == 1) && (next_label % 2 == 1) then inc lab else lab in
    let lab = if is_none next then inc lab else lab in if base == lab then 0 else lab

-- Between a label and a larger one the result is their average rounded down, or 0 where they are
-- adjacent.
pub midpoint-some :
    (base next : ℕ)
    → base < next
    → next ≤ max_label
    → midpoint base (some next) ≡ (if suc base == next then 0 else (base + next) / 2)
unfolding midpoint
midpoint-some base next lt fits = ground arith

-- After the last label the result is halfway to the end, rounded up, or 0 behind the last label.
pub midpoint-none :
    (base : ℕ)
    → base ≤ max_label
    → midpoint base none ≡ (if base == max_label then 0 else (base + max_label) / 2 + 1)
unfolding midpoint
midpoint-none base fits = ground arith
