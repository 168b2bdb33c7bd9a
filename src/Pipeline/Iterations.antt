-- ===== src/Pipeline/Iterations.antt =====
-- The class Iterations of rdtool/include/piper_rd.h: the lists of the last throttle_limit + 1
-- iterations in a ring. Its watermarks are left out.
pub mod Laid
pub mod Window
pub mod Change
use pracer.Base.{
  ℕ, zero, suc, ◌+◌, ◌-◌, ◌%◌, Bool, ◌&&◌, Option, none, some, ◌==◌, ltb, leb, if◌then◌else◌,
}

-- `head` and `tail` of the code start at -1: here they are one more.
pub record Iterations (A : Type 0) : Type 0 where
  pub throttle_limit : ℕ
  pub p : ℕ → Option A
  pub iter_num_list : ℕ → Option ℕ
  pub head : ℕ
  pub tail : ℕ

module _ {A : Type 0} where
  unfoldable pub new_iterations : ℕ → Iterations A
  new_iterations limit = record {
    throttle_limit = limit;
    p = λ _. none;
    iter_num_list = λ _. none;
    head = 0;
    tail = 0;
  }

  unfoldable pub get_index : Iterations A → ℕ → ℕ
  get_index s iter_num =
      let m = iter_num % (s.throttle_limit + 1) in if m == 0 then s.throttle_limit else m - 1

  unfoldable pub get_stage_frame_list : Iterations A → ℕ → Option A
  get_stage_frame_list s iter_num = s.p (get_index s iter_num)

  -- The index that insertStageFrameList chooses, with the head and tail from then on; where no
  -- branch chooses one, and where it is not in the arrays, the code is undefined: none.
  unfoldable pub next_place : Iterations A → Option (ℕ × ℕ × ℕ)
  next_place s =
      if leb s.tail s.head && ltb s.head (s.throttle_limit + 1)
      then some (s.head, suc s.head, s.tail)
      else if ltb s.tail s.head
      then some (0, 1, 2)
      else if ltb s.head s.tail
      then some (s.head, suc s.head, suc (s.tail % (s.throttle_limit + 1)))
      else none

  abbrev pub put_list : ℕ → A → Iterations A → Option (ℕ × ℕ × ℕ) → Option (Iterations A)
  put_list iter_num list s none = none
  put_list iter_num list s (some (index, head, tail)) =
      if ltb index (s.throttle_limit + 1)
      then some (record s {
        p = λ i. if i == index then some list else s.p i;
        iter_num_list = λ i. if i == index then some iter_num else s.iter_num_list i;
        head = head;
        tail = tail;
      })
      else none

  unfoldable pub insert_stage_frame_list : ℕ → A → Iterations A → Option (Iterations A)
  insert_stage_frame_list iter_num list s = put_list iter_num list s (next_place s)

  -- The iterations 1 to n in turn, each with its list.
  unfoldable pub insert_all : (ℕ → A) → (n : ℕ) → Iterations A → Option (Iterations A)
  insert_all list zero s = some s
  insert_all list (suc n) s = elim (insert_all list n s) [
    | none ↦ none
    | some s' ↦ insert_stage_frame_list (suc n) (list (suc n)) s'
  ]
