-- ===== src/Detector/Slot.antt =====
-- rdtool/src/mem_access.cpp: what is kept of the accesses to one grain, and the checks of a new
-- access against it. No other access to the grain runs at the same time. Where the C++ code has a
-- call of report_race, in comments now, the model returns true.
pub mod Order
pub mod Clashes
pub mod Exact
use pracer.Base.{ℕ, Bool, true, false, ◌||◌, Option, none, some, List, [], ◌∷◌, if◌then◌else◌}
use pracer.Detector.Access.{MemAccess, races_with}

pub record Slot : Type 0 where
  pub lreader : Option MemAccess
  pub rreader : Option MemAccess
  pub writer : Option MemAccess

abbrev pub empty_slot : Slot
empty_slot = record { lreader = none; rreader = none; writer = none }

module _ (english hebrew : ℕ → ℕ → Bool) where
  unfoldable pub races_with_last : Option MemAccess → MemAccess → Bool
  unfolding races_with
  races_with_last none curr = false
  races_with_last (some a) curr = races_with english hebrew a curr

  unfoldable pub update_lreader : Option MemAccess → MemAccess → Option MemAccess
  update_lreader none curr = some curr
  update_lreader (some reader) curr =
      if english curr.estrand reader.estrand || hebrew reader.hstrand curr.hstrand
      then some curr
      else some reader

  unfoldable pub update_rreader : Option MemAccess → MemAccess → Option MemAccess
  update_rreader none curr = some curr
  update_rreader (some reader) curr =
      if english reader.estrand curr.estrand then some curr else some reader

  -- One grain of check_races_and_update_with_read and of check_races_and_update_with_write.
  unfoldable pub check_read : MemAccess → Slot → Bool × Slot
  unfolding races_with_last update_lreader update_rreader
  check_read curr s = (
    races_with_last s.writer curr,
    record s { lreader = update_lreader s.lreader curr; rreader = update_rreader s.rreader curr },
  )

  unfoldable pub check_write : MemAccess → Slot → Bool × Slot
  unfolding races_with_last
  check_write curr s = (
    races_with_last s.writer curr
        || races_with_last s.lreader curr
        || races_with_last s.rreader curr,
    record s { writer = some curr },
  )

  unfoldable pub check : (is_read : Bool) → MemAccess → Slot → Bool × Slot
  unfolding check_read check_write
  check is_read curr s = if is_read then check_read curr s else check_write curr s

-- An access of a program, for a history with the last access first.
pub record Access : Type 0 where
  pub is_read : Bool
  pub by : MemAccess

module _ (english hebrew : ℕ → ℕ → Bool) where
  -- Whether a race is found on the way, and the slot at the end.
  unfoldable pub run : List Access → Bool × Slot
  unfolding check
  run [] = (false, empty_slot)
  run (a ∷ before) =
      let (found, s) = run before in
      let (here, s') = check english hebrew a.is_read a.by s in (here || found, s')
