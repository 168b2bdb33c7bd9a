-- ===== src/Om/Split.antt =====
-- rdtool/src/om/blist_split.c: a full list is cut into lists of 64 nodes with fresh labels.
use pracer.Base.{
  ℕ, zero, suc, ◌+◌, ◌%◌, ◌^◌, false, not, ◌||◌, none, some, ◌==◌, ltb, if◌then◌else◌,
}
use pracer.Om.Label.{node_interval, sublist_size, max_level}
use pracer.Om.Store.{
  Ptr, null, Cmd, TlNode, fault, out_of_fuel, pure, ◌>>=◌, ◌>>◌, assert, malloc, load_node,
  load_list, load_top, put_list, put_top, set_node, set_list, set_top,
}
use pracer.Om.Blist.{insert_internal, bl_new}

-- tl_node_new leaves every member undetermined; here they are 0, and each caller sets what is read.
abbrev pub raw_top : TlNode
raw_top = record {
  label = 0;
  level = 0;
  num_leaves = 0;
  parent = null;
  left = null;
  right = null;
  below = null;
  needs_rebalance = false;
}

unfoldable pub tl_node_new : Cmd Ptr
tl_node_new = do n ← malloc; (if n == null then (λ s. fault) else put_top n (some raw_top)); pure n

-- The inner loop: it moves at most 64 nodes to `list` and returns the node that it has come to.
unfoldable pub fill_list : ℕ → (list current_node : Ptr) → (current_label list_size : ℕ) → Cmd Ptr
fill_list zero list current_node current_label list_size = λ s. out_of_fuel
fill_list (suc fuel) list current_node current_label list_size =
    if (current_node == null) || not (ltb list_size sublist_size) then pure current_node else do
      c ← load_node current_node
      set_node current_node (λ x. record x { label = current_label })
      insert_internal list c.prev current_node
      fill_list fuel list c.next ((current_label + node_interval) % 2 ^ 64) (list_size + 1)

-- One round of the outer loop: a new top node and list, filled from `current_node` on.
unfoldable pub cut_list : ℕ → (above prev_tl_node current_node : Ptr) → Cmd (Ptr × Ptr)
unfolding tl_node_new
cut_list fuel above prev_tl_node current_node = do
  n ← tl_node_new
  set_top n (λ x. record x { level = max_level; right = null; left = prev_tl_node; num_leaves = 1 })
  (if prev_tl_node == null
      then set_top above (λ x. record x { below = n })
      else set_top prev_tl_node (λ x. record x { right = n }))
  list ← bl_new
  set_top n (λ x. record x { below = list })
  set_list list (λ x. record x { above = n })
  set_node current_node (λ x. record x { prev = null })
  next ← fill_list fuel list current_node 0 0
  pure (n, next)

unfoldable pub split_loop : ℕ → (above prev_tl_node current_node : Ptr) → ℕ → Cmd ℕ
unfolding cut_list
split_loop zero above prev_tl_node current_node num_lists = λ s. out_of_fuel
split_loop (suc fuel) above prev_tl_node current_node num_lists =
    if current_node == null then pure num_lists else do
      (n, next) ← cut_list (sublist_size + 1) above prev_tl_node current_node
      split_loop fuel above n next (num_lists + 1)

-- The list's own object is freed, its nodes are not.
unfoldable pub split : ℕ → (self : Ptr) → Cmd ℕ
unfolding split_loop
split fuel self = do
  l ← load_list self
  a ← load_top l.above
  assert (a.below == self)
  assert (not (l.head == null))
  num_lists ← split_loop fuel l.above null l.head 0
  put_list self none
  pure num_lists
