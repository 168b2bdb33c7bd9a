-- ===== src/ShadowStack/Stack.antt =====
-- Stack_t of rdtool/src/stack.h. `head` is a uint32_t that starts at -1.
pub mod Kept
use pracer.Base.{
  ℕ, ◌+◌, ◌-◌, ◌*◌, ◌/◌, ◌%◌, Bool, true, false, ◌&&◌, Option, none, some, ◌==◌, ltb, leb,
  if◌then◌else◌,
}

abbrev pub word : ℕ
word = 4294967296

abbrev pub default_capacity : ℕ
default_capacity = 128

-- The memory beyond the capacity is none.
pub record Stack (A : Type 0) : Type 0 where
  pub stack : ℕ → Option A
  pub capacity : ℕ
  pub head : ℕ
  pub tail : ℕ

-- `blank` is what a new array holds.
module _ {A : Type 0} (blank : A) where
  unfoldable pub new_stack : Stack A
  new_stack = record {
    stack = λ i. if ltb i default_capacity then some blank else none;
    capacity = default_capacity;
    head = word - 1;
    tail = 0;
  }

  abbrev pub resize : ℕ → Stack A → Stack A
  resize new_capacity s =
      let copy_end = if ltb new_capacity s.capacity then new_capacity else s.capacity in
      record s {
        stack = λ i.
            if ltb i copy_end then s.stack i else if ltb i new_capacity then some blank else none;
        capacity = new_capacity;
      }

  abbrev pub double_cap : Stack A → Stack A
  double_cap s = resize (s.capacity * 2 % word) s

  abbrev pub halve_cap : Stack A → Stack A
  halve_cap s = resize (s.capacity / 2) s

  unfoldable pub push : Stack A → Stack A
  push s =
      let s' = record s { head = (s.head + 1) % word } in
      if s'.head == s'.capacity then double_cap s' else s'

  unfoldable pub pop : Stack A → Stack A
  pop s =
      let s' = record s { head = (s.head + (word - 1)) % word } in
      if ltb default_capacity s'.capacity && ltb s'.head (s'.capacity / 2) then halve_cap s' else s'

module _ {A : Type 0} where
  -- A failed assertion is none.
  abbrev pub ancestor : ℕ → Stack A → Option A
  ancestor i s = if leb i s.head && ltb s.head s.capacity then s.stack (s.head - i) else none

  abbrev pub at : ℕ → Stack A → Option A
  at i s = if leb i s.head && ltb s.head s.capacity then s.stack i else none

  abbrev pub size : Stack A → ℕ
  size s = (s.head + 1) % word

  abbrev pub empty : Stack A → Bool
  empty s = size s == 0

  -- A write to the element that `ancestor i` points to.
  abbrev pub put_ancestor : ℕ → A → Stack A → Stack A
  put_ancestor i v s = record s { stack = λ j. if j == s.head - i then some v else s.stack j }
