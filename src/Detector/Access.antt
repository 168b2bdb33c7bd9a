-- ===== src/Detector/Access.antt =====
-- rdtool/src/mem_access.h: an access, its race test, and how addresses are divided into grains.
use pracer.Base.{ℕ, ◌+◌, ◌-◌, ◌*◌, ◌/◌, ◌%◌, Bool, true, false, not}

-- The strand of an access, by its nodes in the two orders, and the address of the instruction.
pub record MemAccess : Type 0 where
  pub estrand : ℕ
  pub hstrand : ℕ
  pub rip : ℕ

abbrev pub grain_size : ℕ
grain_size = 4

abbrev pub max_grain_size : ℕ
max_grain_size = 16

abbrev pub num_slots : ℕ
num_slots = 4

abbrev pub align_by_prev_max_grain_size : ℕ → ℕ
align_by_prev_max_grain_size addr = addr / max_grain_size * max_grain_size

abbrev pub align_by_next_max_grain_size : ℕ → ℕ
align_by_next_max_grain_size addr = (addr + (max_grain_size - 1)) / max_grain_size * max_grain_size

abbrev pub addr_to_mem_index : ℕ → ℕ
addr_to_mem_index addr = addr % max_grain_size / grain_size

abbrev pub size_to_num_grains : ℕ → ℕ
size_to_num_grains size = size / grain_size

abbrev pub addr_to_key : ℕ → ℕ
addr_to_key addr = addr / 16

abbrev pub same_bool : Bool → Bool → Bool
same_bool true b = b
same_bool false b = not b

-- `english` and `hebrew` are om_precedes in the two structures. While a relabelling runs the code
-- asks again, and takes the answers of a time at which none runs.
module _ (english hebrew : ℕ → ℕ → Bool) where
  unfoldable pub races_with : MemAccess → MemAccess → Bool
  races_with a curr =
      same_bool (english a.estrand curr.estrand) (not (hebrew a.hstrand curr.hstrand))
