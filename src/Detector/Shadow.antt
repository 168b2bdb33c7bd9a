-- ===== src/Detector/Shadow.antt =====
-- rdtool/src/shadow_mem.h: a directory of tables from keys to what is kept under them, and
-- clear_shadow_memory of rdtool/src/shadow_stack.cpp. One worker works on it: no compare-and-swap
-- fails.
pub mod Laws
use pracer.Base.{
  ℕ, zero, suc, ◌+◌, ◌*◌, ◌/◌, ◌%◌, ◌^◌, Bool, true, false, Option, none, some, ◌==◌, if◌then◌else◌,
}
use pracer.Detector.Access.{addr_to_key, max_grain_size}

abbrev pub tbl_size : ℕ
tbl_size = 1048576

abbrev pub put {ℓ} : {A : Type ℓ} → ℕ → A → (ℕ → A) → ℕ → A
put i v f j = if j == i then v else f j

abbrev pub ShadowTbl : Type 0 → Type 0
ShadowTbl T = ℕ → Option T

abbrev pub ShadowDir : Type 0 → Type 0
ShadowDir T = ℕ → Option (ShadowTbl T)

abbrev pub empty_dir : {T : Type 0} → ShadowDir T
empty_dir _ = none

module _ {T : Type 0} where
  -- The table that find_slot returns a slot of: with `alloc` a missing table is made.
  abbrev pub find_tbl : (alloc : Bool) → Option (ShadowTbl T) → Option (ShadowTbl T)
  find_tbl alloc (some tbl) = some tbl
  find_tbl true none = some (λ _. none)
  find_tbl false none = none

  abbrev pub in_tbl : ℕ → Option (ShadowTbl T) → Option T
  in_tbl key none = none
  in_tbl key (some tbl) = tbl (key % tbl_size)

  abbrev pub put_slot : ℕ → Option T → Option (ShadowTbl T) → ShadowDir T → ShadowDir T
  put_slot key v none dir = dir
  put_slot key v (some tbl) dir = put (key / tbl_size) (some (put (key % tbl_size) v tbl)) dir

  unfoldable pub find : ShadowDir T → ℕ → Option T
  find dir key = in_tbl key (find_tbl false (dir (key / tbl_size)))

  abbrev or_new : Option T → T → T
  or_new none val = val
  or_new (some old) val = old

  -- The value that stands under the key at the end, the old one if there is one.
  unfoldable pub insert : ShadowDir T → ℕ → T → T × ShadowDir T
  insert dir key val =
      let slot = find_tbl true (dir (key / tbl_size)) in
      let kept = or_new (in_tbl key slot) val in (kept, put_slot key (some kept) slot dir)

  unfoldable pub erase : ShadowDir T → ℕ → ShadowDir T
  erase dir key = put_slot key none (find_tbl false (dir (key / tbl_size))) dir

  -- A change of the object that stands under a key.
  unfoldable pub modify : ShadowDir T → ℕ → T → ShadowDir T
  modify dir key val = put_slot key (some val) (find_tbl false (dir (key / tbl_size))) dir

  -- The loop of clear_shadow_memory; none is for a loop that the fuel does not see the end of. Its
  -- om_asserts, that the end is aligned and behind the start, are left out: they are empty unless
  -- TOOL_DEBUG is above DEBUG_NONE.
  unfoldable pub clear_shadow_memory :
      (fuel : ℕ) → (start end : ℕ) → ShadowDir T → Option (ShadowDir T)
  unfolding erase
  clear_shadow_memory zero start end dir = none
  clear_shadow_memory (suc fuel) start end dir =
      let rest =
        clear_shadow_memory fuel (start + max_grain_size) end (erase dir (addr_to_key start)) in
      if start == end then some dir else rest
