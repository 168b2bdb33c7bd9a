-- ===== src/Detector/Memory/Block.antt =====
-- What recording an access does to every slot of the shadow memory, and when it finds a race.
use pracer.Base.{
  ℕ, ◌<◌, ◌≡◌, ◌∙◌, refl, sym, ap, Bool, true, false, ◌&&◌, ◌==◌, if◌then◌else◌, arith, inl, inr,
  Bool-cases, eqb_refl, Option, none, some, Option-cases,
}
use pracer.Detector.Access.{MemAccess, addr_to_key}
use pracer.Detector.Slot.{
  Slot, empty_slot, check, check_read, check_write, races_with_last, update_lreader, update_rreader,
}
use pracer.Detector.Shadow.{ShadowDir, find, insert, modify}
use pracer.Detector.Shadow.Laws.{find-insert, insert-find, find-modify}
use pracer.Detector.Memory.{
  MemEvent, MemAccessList, first_access, start_of, grains_of, new_mem_access_list,
  check_races_and_update, record_block,
}
use pracer.Detector.Memory.Grains.{in_range, each_grain-slot, each_grain-found, found-each_grain}

-- What is kept of the accesses to grain `j` of the block with a key.
abbrev pub block_slot : Option MemAccessList → ℕ → Slot
block_slot none j = empty_slot
block_slot (some l) j = l.slots j

abbrev pub slot_at : ShadowDir MemAccessList → (key j : ℕ) → Slot
slot_at dir key j = block_slot (find dir key) j

abbrev pub covers : MemEvent → (key j : ℕ) → Bool
covers a key j = (key == addr_to_key a.addr) && in_range (grains_of a) (start_of a) j

eq_of : (a b : ℕ) → (a == b) ≡ true → a ≡ b
eq_of a b h = ground arith

and_true : (a b : Bool) → (a && b) ≡ true → (a ≡ true) × (b ≡ true)
and_true a b h = ground arith

module _ (english hebrew : ℕ → ℕ → Bool) where
  first_access-check :
      (k : Bool) (curr : MemAccess)
      → (first_access k curr empty_slot).1 ≡ (check english hebrew k curr empty_slot).1
  unfolding check check_read check_write races_with_last update_lreader update_rreader
  first_access-check true curr = refl
  first_access-check false curr = refl

  pub check-empty :
      (k : Bool) (curr : MemAccess) → (check english hebrew k curr empty_slot).0 ≡ false
  unfolding check check_read check_write races_with_last
  check-empty true curr = refl
  check-empty false curr = refl

  module _ (a : MemEvent) (dir : ShadowDir MemAccessList) where
    abbrev pub visit : Slot → Bool × Slot
    visit = check english hebrew a.is_read a.by

    record_block-new :
        find dir (addr_to_key a.addr) ≡ none
        → record_block english hebrew a dir
          ≡ (false, (insert dir (addr_to_key a.addr) (new_mem_access_list a)).1)
    unfolding record_block
    record_block-new e = rw (e, record_block) refl

    record_block-old :
        (l : MemAccessList)
        → find dir (addr_to_key a.addr) ≡ some l
        → record_block english hebrew a dir ≡ (
          (check_races_and_update english hebrew a l).0,
          modify dir (addr_to_key a.addr) (check_races_and_update english hebrew a l).1,
        )
    unfolding record_block
    record_block-old l e = rw (e, record_block) refl

    new_slots :
        (j : ℕ)
        → (new_mem_access_list a).slots j
          ≡ (if in_range (grains_of a) (start_of a) j then (visit empty_slot).1 else empty_slot)
    unfolding new_mem_access_list
    new_slots j =
        each_grain-slot (first_access a.is_read a.by) (grains_of a) (start_of a) (λ _. empty_slot) j
        ∙ rw (first_access-check a.is_read a.by) refl

    old_slots :
        (l : MemAccessList) (j : ℕ)
        → (check_races_and_update english hebrew a l).1.slots j
          ≡ (if in_range (grains_of a) (start_of a) j then (visit (l.slots j)).1 else l.slots j)
    unfolding check_races_and_update
    old_slots l j = each_grain-slot visit (grains_of a) (start_of a) l.slots j

    pub record_block-slot :
        (key j : ℕ)
        → slot_at (record_block english hebrew a dir).1 key j
          ≡ (if covers a key j then (visit (slot_at dir key j)).1 else slot_at dir key j)
    record_block-slot key j =
        let key' = addr_to_key a.addr in
        elim (Option-cases (find dir key')) [
          | inl e ↦
              rw
                (
                  record_block-new e,
                  find-insert dir key' (new_mem_access_list a) key,
                  insert-find dir key' (new_mem_access_list a) e,
                )
                (elim (Bool-cases (key == key')) [
                  | inl same ↦
                      let here : find dir key ≡ none = rw (eq_of key key' same) e in
                      rw (same, here) (new_slots j)
                  | inr other ↦ rw other refl
                ])
          | inr (l, e) ↦
              rw
                (
                  record_block-old l e,
                  find-modify dir key' (check_races_and_update english hebrew a l).1 l key e,
                )
                (elim (Bool-cases (key == key')) [
                  | inl same ↦
                      let here : find dir key ≡ some l = rw (eq_of key key' same) e in
                      rw (same, here) (old_slots l j)
                  | inr other ↦ rw other refl
                ])
        ]

    pub record_block-found :
        (record_block english hebrew a dir).0 ≡ true
        → (j : ℕ) × (covers a (addr_to_key a.addr) j ≡ true)
          × ((visit (slot_at dir (addr_to_key a.addr) j)).0 ≡ true)
    unfolding check_races_and_update
    record_block-found found = elim (Option-cases (find dir (addr_to_key a.addr))) [
      | inl e ↦ cc (ap (λ r. r.0) (record_block-new e))
      | inr (l, e) ↦
          let (j, inside, here) =
            each_grain-found visit (grains_of a) (start_of a) l.slots
              (sym (ap (λ r. r.0) (record_block-old l e)) ∙ found) in
          (j, rw (eqb_refl (addr_to_key a.addr)) inside, rw e here)
    ]

    pub found-record_block :
        (key j : ℕ)
        → covers a key j ≡ true
        → (visit (slot_at dir key j)).0 ≡ true
        → (record_block english hebrew a dir).0 ≡ true
    unfolding check_races_and_update
    found-record_block key j inside here =
        let (same, within) = and_true _ _ inside in
        let at_key : find dir (addr_to_key a.addr) ≡ find dir key =
          ap (find dir) (sym (eq_of key _ same)) in
        elim (Option-cases (find dir key)) [
          | inl e ↦
              let no_race : (visit empty_slot).0 ≡ true = rw e at here in
              cc (check-empty a.is_read a.by)
          | inr (l, e) ↦
              ap (λ r. r.0) (record_block-old l (at_key ∙ e))
              ∙ found-each_grain visit (grains_of a) (start_of a) l.slots j within (rw e at here)
        ]

-- No grain counts for an access of less than four bytes.
no_grains : (a : MemEvent) (key j : ℕ) → a.mem_size < 4 → covers a key j ≡ false
no_grains a key j small = ground arith

-- An access of less than four bytes is not checked: recording it finds no race, and what is kept
-- of the accesses to any grain stays as it was.
pub record_block-small :
    (english hebrew : ℕ → ℕ → Bool) (a : MemEvent) (dir : ShadowDir MemAccessList)
    → a.mem_size < 4
    → ((record_block english hebrew a dir).0 ≡ false)
      × ((key j : ℕ) → slot_at (record_block english hebrew a dir).1 key j ≡ slot_at dir key j)
record_block-small english hebrew a dir small = (
  elim (Bool-cases (record_block english hebrew a dir).0) [
    | inl found ↦
        let (j, inside, hit) = record_block-found english hebrew a dir found in
        cc (no_grains a (addr_to_key a.addr) j small)
    | inr calm ↦ calm
  ],
  λ key j. record_block-slot english hebrew a dir key j ∙ rw (no_grains a key j small) refl,
)
