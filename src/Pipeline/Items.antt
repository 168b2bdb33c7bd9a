-- ===== src/Pipeline/Items.antt =====
-- rdtool/src/list.cpp: a list in an array that is extended by 100 places.
pub mod Laws
use pracer.Base.{ℕ, suc, ◌+◌, Bool, Option, none, some, ◌==◌, ltb, if◌then◌else◌}

-- `top` of the code is one less than `length`. The memory of `p` beyond `size` is none.
pub record Items (A : Type 0) : Type 0 where
  pub p : ℕ → Option A
  pub length : ℕ
  pub size : ℕ

module _ {A : Type 0} where
  -- The first places of a new array, which holds `blank` elements, have the old contents.
  unfoldable pub extend_list : A → Items A → Items A
  extend_list blank l = record l {
    p = λ i. if ltb i l.size then l.p i else if ltb i (l.size + 100) then some blank else none;
    size = l.size + 100;
  }

  unfoldable pub new_items : A → Items A
  new_items blank = record {
    p = λ i. if ltb i 100 then some blank else none;
    length = 0;
    size = 100;
  }

  abbrev pub room : A → Items A → Items A
  unfolding extend_list
  room blank l = if l.length == l.size then extend_list blank l else l

  -- The list with one more element, in an array with room for it.
  abbrev pub written : A → Items A → Items A
  written element l = record l {
    p = λ i. if i == l.length then some element else l.p i;
    length = suc l.length;
  }

  -- A write at or beyond `size` is none.
  unfoldable pub append : A → A → Items A → Option (Items A)
  unfolding room
  append blank element l =
      let l' = room blank l in if ltb l'.length l'.size then some (written element l') else none

  -- none is for the exception.
  unfoldable pub get : Items A → ℕ → Option A
  get l index = if ltb index l.length then l.p index else none
