-- ===== src/Detector/Memory.antt =====
-- The accesses to a block of four grains, MemAccessList_t of rdtool/src/mem_access.h and .cpp, and
-- record_mem_helper of rdtool/src/instrumentation.cpp.
pub mod Grains
pub mod Block
pub mod Exact
pub mod Bytes
use pracer.Base.{
  ℕ, zero, suc, ◌+◌, ◌*◌, ◌/◌, Bool, true, false, ◌||◌, Option, none, some, List, [], ◌∷◌, ◌==◌,
  leb, if◌then◌else◌,
}
use mathlib.Core.Option
use pracer.Detector.Access.{
  MemAccess, num_slots, align_by_prev_max_grain_size, addr_to_mem_index, size_to_num_grains,
  addr_to_key,
}
use pracer.Detector.Slot.{Slot, empty_slot, check}
use pracer.Detector.Shadow.{put, ShadowDir, empty_dir, find, insert, modify}

-- An access as the instrumentation reports it.
pub record MemEvent : Type 0 where
  pub is_read : Bool
  pub addr : ℕ
  pub mem_size : ℕ
  pub by : MemAccess

-- lreaders[i], rreaders[i] and writers[i] are one slot.
pub record MemAccessList : Type 0 where
  pub start_addr : ℕ
  pub slots : ℕ → Slot

-- `for (i = start; i < start + grains; i++)` over the slots: whether one shows a race.
unfoldable pub each_grain :
    (Slot → Bool × Slot) → (grains start : ℕ) → (ℕ → Slot) → Bool × (ℕ → Slot)
each_grain f zero i slots = (false, slots)
each_grain f (suc n) i slots =
    let (here, s) = f (slots i) in
    let (later, slots') = each_grain f n (suc i) (put i s slots) in (here || later, slots')

-- The constructor's assignments to a slot of NULLs.
abbrev pub first_access : (is_read : Bool) → MemAccess → Slot → Bool × Slot
first_access true curr s = (false, record s { lreader = some curr; rreader = some curr })
first_access false curr s = (false, record s { writer = some curr })

abbrev pub start_of : MemEvent → ℕ
start_of a = addr_to_mem_index a.addr

abbrev pub grains_of : MemEvent → ℕ
grains_of a = size_to_num_grains a.mem_size

unfoldable pub new_mem_access_list : MemEvent → MemAccessList
unfolding each_grain
new_mem_access_list a = record {
  start_addr = align_by_prev_max_grain_size a.addr;
  slots = (each_grain (first_access a.is_read a.by) (grains_of a) (start_of a) (λ _. empty_slot)).1;
}

module _ (english hebrew : ℕ → ℕ → Bool) where
  unfoldable pub check_races_and_update : MemEvent → MemAccessList → Bool × MemAccessList
  unfolding each_grain
  check_races_and_update a l =
      let (found, slots) =
        each_grain (check english hebrew a.is_read a.by) (grains_of a) (start_of a) l.slots in
      (found, record l { slots = slots })

  -- The access to its block: a new list is inserted, an old one checked and changed in place.
  unfoldable pub record_block : MemEvent → ShadowDir MemAccessList → Bool × ShadowDir MemAccessList
  record_block a dir =
      let key = addr_to_key a.addr in
      elim (find dir key) [
        | none ↦ (false, (insert dir key (new_mem_access_list a)).1)
        | some val ↦
            let (found, val') = check_races_and_update a val in (found, modify dir key val')
      ]

  -- An index beyond the four slots is undefined in C++: none.
  unfoldable pub record_mem_helper :
      MemEvent → ShadowDir MemAccessList → Option (Bool × ShadowDir MemAccessList)
  record_mem_helper a dir =
      if leb (start_of a + grains_of a) num_slots then some (record_block a dir) else none

  -- All accesses of a history, the newest first: whether a race is found, and the shadow memory.
  unfoldable pub record_all : List MemEvent → Option (Bool × ShadowDir MemAccessList)
  record_all [] = some (false, empty_dir)
  record_all (a ∷ before) = elim (record_all before) [
    | none ↦ none
    | some (found, dir) ↦ Option.map (λ r. (r.0 || found, r.1)) (record_mem_helper a dir)
  ]
