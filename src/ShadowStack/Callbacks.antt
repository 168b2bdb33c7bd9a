-- ===== src/ShadowStack/Callbacks.antt =====
-- AtomicStack_t of rdtool/src/stack.h and the callbacks of rdtool/src/shadow_stack.cpp. One of them
-- runs at a time, outside batches. A failed assertion and an access through NULL are none; om_assert is off.
use pracer.Base.{
  ℕ, zero, suc, ◌-◌, Bool, true, false, not, ◌&&◌, Option, none, some, ◌==◌, ltb, leb, is_none,
  if◌then◌else◌,
}
use pracer.Pipeline.OmOrder.{OmOrder}
use pracer.ShadowStack.Stack.{word, Stack, push, pop, ancestor, put_ancestor, size, empty}
use pracer.ShadowStack.Spawn.{FrameData, spawn, sync, leave, leave_stolen}

infixl 5 ◌>>=◌
abbrev pub ◌>>=◌ : {A B : Type 0} → Option A → (A → Option B) → Option B
none >>= f = none
some a >>= f = f a

abbrev pub guard : {A : Type 0} → Bool → Option A → Option A
guard true m = m
guard false m = none

abbrev pub Frames : Type 0
Frames = Stack FrameData

-- The contents of a new array are not read.
abbrev pub blank : FrameData
blank = record {
  current_english = none;
  current_hebrew = none;
  cont_english = none;
  cont_hebrew = none;
  sync_english = none;
  sync_hebrew = none;
  is_helper = false;
  is_full = false;
}

-- `push(); *head() = item`.
unfoldable pub add : FrameData → Frames → Frames
add item s = put_ancestor 0 item (push blank s)

unfoldable pub push_helper : Frames → Option Frames
unfolding add
push_helper s = ancestor 0 s >>= λ head.
    guard (not head.is_helper) (some (add (record blank { is_helper = true }) s))

unfoldable pub reset : Frames → Frames
reset s = record s { head = word - 1; tail = 0 }

-- AtomicStack_t's pop.
unfoldable pub pop_atomic : Frames → Option Frames
pop_atomic s = guard (leb s.tail s.head) (
    let s' = pop blank s in
    if ltb s'.head s'.tail
    then guard (s'.tail - 1 == s'.head) (some (record s' { tail = s'.tail - 1 }))
    else some s')

-- The first n of the remaining frames go to the thief, marked as full.
unfoldable pub copy_full : (n i : ℕ) → Frames → Frames → Option Frames
unfolding add
copy_full zero i victim thief = some thief
copy_full (suc n) i victim thief =
    victim.stack i >>= λ f. copy_full n (suc i) victim (add (record f { is_full = true }) thief)

-- The frames up to the next helper go to the thief: the thief and the new tail. The fuel is the
-- number of the frames.
unfoldable pub copy_to_helper : (fuel tail : ℕ) → Frames → Frames → Option (Frames × ℕ)
unfolding add
copy_to_helper zero tail victim thief = none
copy_to_helper (suc fuel) tail victim thief = victim.stack tail >>= λ f.
    (let rest = copy_to_helper fuel (suc tail) victim (add f thief) in
      if f.is_helper then some (thief, tail) else guard (ltb tail victim.head) rest)

-- The victim and the thief afterwards.
unfoldable pub steal_top : (victim thief : Frames) → Option (Frames × Frames)
unfolding add copy_full copy_to_helper
steal_top victim thief =
    guard (not (victim.tail == word - 1) && leb victim.tail victim.head && empty thief) (
      copy_full victim.tail 0 victim (record thief { tail = victim.tail }) >>= λ t.
      victim.stack victim.tail >>= λ f.
      copy_to_helper (suc victim.head) (suc victim.tail) victim (add f t) >>= λ (t', tail).
      guard (leb tail victim.head) (some (record victim { tail = tail }, t')))

module _ {S : Type 0} (o : OmOrder S) where
  pub record Tool : Type 0 where
    pub english : S
    pub hebrew : S
    pub frames : ℕ → Frames

  abbrev pub put_frames : ℕ → Frames → Tool → Tool
  put_frames w s t = record t { frames = λ v. if v == w then s else t.frames v }

  -- init_strand on a worker with an empty stack, and with the frame that it has stolen.
  unfoldable pub init_strand_first : ℕ → Tool → Option Tool
  unfolding add
  init_strand_first w t = guard (empty (t.frames w)) (
      some (
        put_frames w
          (add
            (record blank {
              current_english = some (o.get_base t.english);
              current_hebrew = some (o.get_base t.hebrew);
            })
            (t.frames w))
          t))

  unfoldable pub init_strand : ℕ → Tool → Option Tool
  init_strand w t = ancestor 0 (t.frames w) >>= λ f.
      guard (not f.is_helper && is_none f.current_english && is_none f.current_hebrew) (
        some (
          put_frames w
            (put_ancestor 0
              (record f {
                current_english = f.cont_english;
                current_hebrew = f.cont_hebrew;
                cont_english = none;
                cont_hebrew = none;
              })
              (t.frames w))
            t))

  unfoldable pub do_steal_success : (w victim : ℕ) → Tool → Option Tool
  unfolding reset init_strand
  do_steal_success w victim t = steal_top (t.frames victim) (reset (t.frames w)) >>= λ (v, thief).
      init_strand w (put_frames w thief (put_frames victim v t))

  unfoldable pub do_enter_begin : ℕ → Tool → Option Tool
  unfolding add
  do_enter_begin w t = ancestor 0 (t.frames w) >>= λ parent. some (
      put_frames w
        (add
          (record blank {
            current_english = parent.current_english;
            current_hebrew = parent.current_hebrew;
          })
          (t.frames w))
        t)

  unfoldable pub do_detach_begin : ℕ → Tool → Option Tool
  unfolding push_helper spawn
  do_detach_begin w t = push_helper (t.frames w) >>= λ s. ancestor 1 s >>= λ parent.
      spawn o parent t.english t.hebrew >>= λ (parent', f, e, h). some (record t {
        english = e;
        hebrew = h;
        frames = λ v. if v == w then put_ancestor 0 f (put_ancestor 1 parent' s) else t.frames v;
      })

  unfoldable pub do_sync_begin : ℕ → Tool → Option Tool
  unfolding sync
  do_sync_begin w t = ancestor 0 (t.frames w) >>= λ f.
      guard (not f.is_helper) (some (put_frames w (put_ancestor 0 (sync f) (t.frames w)) t))

  -- Whether the last frame is left, and the state.
  unfoldable pub do_leave_end : ℕ → Tool → Option (Bool × Tool)
  unfolding leave pop_atomic
  do_leave_end w t =
      let s = t.frames w in
      if ltb 1 (size s)
      then (ancestor 0 s >>= λ child. ancestor 1 s >>= λ parent.
          pop_atomic (put_ancestor 1 (leave child parent) s) >>= λ s'.
          some (empty s', put_frames w s' t))
      else some (empty s, t)

  unfoldable pub do_leave_stolen : ℕ → Tool → Option Tool
  unfolding leave_stolen pop_atomic
  do_leave_stolen w t =
      let s = t.frames w in
      if leb (size s) 1
      then some t
      else (ancestor 0 s >>= λ child. ancestor 1 s >>= λ parent.
          pop_atomic (put_ancestor 1 (leave_stolen child parent) s) >>= λ s'.
          some (put_frames w s' t))
