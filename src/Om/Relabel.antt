-- ===== src/Om/Relabel.antt =====
-- rdtool/src/om/om_relabel.c: lists that are full are split, and the tree over them is rebuilt
-- where it has become too dense. Spawned calls run in the order of the text. An array is the list
-- of its elements, and a pair of indices into it is the segment between them.
pub mod Rebuild
mod Halves
pub mod Total
mod Ready
mod Run
use pracer.Base.{
  ℕ, zero, suc, ◌+◌, ◌-◌, ◌*◌, ◌/◌, ◌%◌, ◌^◌, Bool, true, false, not, ◌&&◌, ◌||◌, Option, none,
  some, List, [], ◌∷◌, ◌++◌, ◌==◌, ltb, leb, if◌then◌else◌, length, take, drop,
}
use pracer.Om.Label.{max_label, max_level}
use pracer.Om.Store.{
  Ptr, null, Cmd, TlNode, fault, out_of_fuel, undefined, exited, pure, ◌>>=◌, ◌>>◌, assert,
  load_top, put_top, set_top, load_list, set_list,
}
use pracer.Om.Split.{tl_node_new, split}
use pracer.Om.Top.{Om, is_leaf}

-- FAST_LOG2 of a positive number: the place of its highest bit.
unfoldable pub fast_log2 : ℕ → ℕ → ℕ
fast_log2 zero x = 0
fast_log2 (suc fuel) x = let rest = fast_log2 fuel (x / 2) in if leb x 1 then 0 else rest + 1

unfoldable pub fast_log2_ceil : ℕ → ℕ
unfolding fast_log2
fast_log2_ceil x = let k = fast_log2 64 x in if x == 2 ^ k then k else k + 1

unfoldable pub range_right : TlNode → ℕ
range_right n = n.label

-- The mask has ones from bit `64 - level` up: bit 63 is moved left and spread back by a signed
-- shift of `level - 1` places. A shift by a negative count, at level 0, is undefined.
unfoldable pub range_left : TlNode → Option ℕ
unfolding range_right
range_left n =
    if n.parent == null
    then some 0
    else if (n.level == 0) || ltb 64 n.level
    then none
    else some (range_right n / 2 ^ (64 - n.level) * 2 ^ (64 - n.level))

-- `1 << k` at type int.
unfoldable pub int_bit : ℕ → Option ℕ
int_bit k = if ltb k 31 then some (2 ^ k) else none

unfoldable pub capacity : TlNode → Option ℕ
unfolding int_bit
capacity n = if n.level == 0 then some max_label else int_bit (max_level - n.level)

abbrev pub defined : {A : Type 0} → Option A → Cmd A
defined none = λ s. undefined
defined (some a) = pure a

-- The quotients of doubles are compared as exact fractions:
-- num_leaves / capacity against 0.75 + 0.25 * (level / height).
unfoldable pub too_heavy : Ptr → (height : ℕ) → Cmd Bool
unfolding capacity
too_heavy p height = do
  n ← load_top p
  if not n.needs_rebalance then pure false else do
    c ← defined (capacity n)
    pure (leb (c * (3 * height + n.level)) (4 * n.num_leaves * height))

-- The loop over the split nodes of a leaf, which also unlinks them.
unfoldable pub collect_split : ℕ → (current : Ptr) → Cmd (List Ptr)
collect_split zero current = λ s. out_of_fuel
collect_split (suc fuel) current = if current == null then pure [] else do
  c ← load_top current
  (if c.right == null then pure tt else do x ← load_top c.right; assert (x.left == current))
  (if c.left == null then pure tt else set_top c.left (λ x. record x { right = null }))
  set_top current (λ x. record x { left = null })
  rest ← collect_split fuel c.right
  pure (current ∷ rest)

-- `size` is the length of the segment that the call fills; result: its elements.
unfoldable pub build_array_of_leaves : ℕ → (n : Ptr) → (size : ℕ) → Cmd (List Ptr)
unfolding collect_split
build_array_of_leaves zero n size = λ s. out_of_fuel
build_array_of_leaves (suc fuel) n size = do
  x ← load_top n
  leaves ←
      (if is_leaf x
        then (if x.num_leaves == 1
            then (do assert (size == 1); pure (n ∷ []))
            else do xs ← collect_split (size + 1) x.below; assert (length xs == size); pure xs)
        else do
          assert (not (x.left == null))
          l ← load_top x.left
          front ← build_array_of_leaves fuel x.left l.num_leaves
          back ← build_array_of_leaves fuel x.right ((size + 2 ^ 64 - l.num_leaves) % 2 ^ 64)
          set_top n (λ y. record y { left = null; right = null })
          pure (front ++ back))
  y ← load_top n
  assert ((y.left == null) && (y.right == null))
  (if y.needs_rebalance then put_top n none else pure tt)
  pure leaves

abbrev pub middle : (llab rlab : ℕ) → ℕ
middle llab rlab = llab + ((rlab - llab) / 2 + 1) - 1

abbrev pub half_up : ℕ → ℕ
half_up size = size - size / 2

abbrev pub only : List Ptr → Ptr
only [] = null
only (p ∷ ps) = p

unfoldable pub rebuild_recursive :
    ℕ → (parent : Ptr) → (array : List Ptr) → (llab rlab : ℕ) → Cmd Ptr
rebuild_recursive zero parent array llab rlab = λ s. out_of_fuel
rebuild_recursive (suc fuel) parent array llab rlab = do
  let size = length array
  n ← (if size == 1 then pure (only array) else tl_node_new)
  set_top n (λ x. record x { parent = parent; needs_rebalance = false })
  assert (leb llab rlab)
  if size == 1
      then (do
        set_top n (λ x. record x {
          label = llab;
          level = max_level;
          left = null;
          right = null;
          num_leaves = 1;
        })
        pure n)
      else do
        p ← load_top parent
        set_top n (λ x. record x { level = p.level + 1 })
        left ← rebuild_recursive fuel n (take (half_up size) array) llab (middle llab rlab)
        set_top n (λ x. record x { left = left })
        right ← rebuild_recursive fuel n (drop (half_up size) array) (middle llab rlab + 1) rlab
        set_top n (λ x. record x { right = right })
        set_top n (λ x. record x { label = rlab; num_leaves = size })
        assert (rlab % 2 == 1)
        pure n

-- A leaf that was split becomes an inner node.
unfoldable pub become_inner : (n : Ptr) → Cmd (Unit {0})
become_inner n = do
  set_top n (λ x. record x { below = null })
  x ← load_top n
  if x.parent == null then set_top n (λ y. record y { level = 0; label = max_label }) else do
    p ← load_top x.parent
    lo ← defined (range_left p)
    let lab = if p.right == n then p.label else (range_right p - lo) / 2 + lo
    set_top n (λ y. record y { label = lab; level = p.level + 1 })

unfoldable pub rebuild : ℕ → (n : Ptr) → Cmd (Unit {0})
unfolding become_inner
rebuild fuel n = do
  x ← load_top n
  let was_leaf = (x.left == null) && (x.right == null)
  array ← build_array_of_leaves fuel n x.num_leaves
  (if was_leaf then become_inner n else pure tt)
  set_top n (λ y. record y { left = null; right = null })
  y ← load_top n
  llab ← defined (range_left y)
  let rlab = y.label
  assert (rlab % 2 == 1)
  let size = length array
  left ← rebuild_recursive fuel n (take (half_up size) array) llab (middle llab rlab)
  set_top n (λ y. record y { left = left })
  right ← rebuild_recursive fuel n (drop (half_up size) array) (middle llab rlab + 1) rlab
  set_top n (λ y. record y { right = right })

unfoldable pub rebalance : ℕ → (n : Ptr) → (height : ℕ) → Cmd (Unit {0})
unfolding rebuild too_heavy
rebalance zero n height = λ s. out_of_fuel
rebalance (suc fuel) n height = if n == null then pure tt else do
  x ← load_top n
  if not x.needs_rebalance then pure tt else do
    set_top n (λ y. record y { needs_rebalance = false })
    if is_leaf x then rebuild fuel n else do
      c ← defined (capacity x)
      assert (leb x.num_leaves c)
      left ← too_heavy x.left height
      heavy ←
          (if left
            then pure true
            else if x.right == null
            then pure false
            else too_heavy x.right height)
      if heavy
          then rebuild fuel n
          else do rebalance fuel x.left height; rebalance fuel x.right height

-- The walk from a split leaf to the root; result: the height of the tree above its new leaves.
unfoldable pub update_sizes : ℕ → (current : Ptr) → (num_split_lists height : ℕ) → Cmd ℕ
update_sizes zero current num_split_lists height = λ s. out_of_fuel
update_sizes (suc fuel) current num_split_lists height = if current == null then pure height else do
  x ← load_top current
  set_top current (λ y. record y {
    num_leaves = (y.num_leaves + (num_split_lists - 1)) % 2 ^ 64;
    needs_rebalance = true;
  })
  update_sizes fuel x.parent num_split_lists (height + 1)

-- A list that was cut into one piece stays under its old top node.
unfoldable pub keep_list : (current : Ptr) → Cmd (Unit {0})
keep_list current = do
  set_top current (λ y. record y { needs_rebalance = false })
  x ← load_top current
  n ← load_top x.below
  set_top x.below (λ y. record y { level = max_level })
  put_top x.below none
  set_top current (λ y. record y { below = n.below })
  set_list n.below (λ l. record l { above = current })

-- One round of the loop over the heavy lists; result: the height of the tree.
unfoldable pub relabel_list : ℕ → (self : Om) → (current : Ptr) → Cmd Om
unfolding update_sizes keep_list
relabel_list fuel self current = do
  x ← load_top current
  assert (x.level == max_level)
  assert (not (x.parent == null) || (current == self.root))
  assert ((x.left == null) && (x.right == null))
  num_split_lists ← split fuel x.below
  if ltb 1 num_split_lists
      then (do
        set_top current (λ y. record y { left = null; right = null })
        height ← update_sizes fuel current num_split_lists (fast_log2_ceil num_split_lists - 1)
        pure (if ltb self.height height then record self { height = height } else self))
      else do keep_list current; pure self

unfoldable pub relabel_lists : ℕ → (self : Om) → (heavy_lists : List Ptr) → Cmd Om
unfolding relabel_list
relabel_lists fuel self [] = pure self
relabel_lists fuel self (current ∷ heavy_lists) = do
  self' ← relabel_list fuel self current
  relabel_lists fuel self' heavy_lists

-- The second half of the overflow test never holds, since MAX_LABEL + 1 is 0.
unfoldable pub om_relabel : ℕ → (self : Om) → (heavy_lists : List Ptr) → Cmd Om
unfolding relabel_lists rebalance
om_relabel fuel self heavy_lists = do
  old ← load_top self.root
  self' ← relabel_lists fuel self heavy_lists
  new ← load_top self'.root
  if ltb new.num_leaves old.num_leaves
      then (λ s. exited)
      else do rebalance fuel self'.root self'.height; pure self'
