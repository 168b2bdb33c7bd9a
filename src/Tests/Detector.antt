-- ===== src/Tests/Detector.antt =====
-- Histories of two parallel strands, and the shadow memory of a few blocks.
use pracer.Base.{
  ℕ, ◌+◌, ◌*◌, ◌≡◌, ◌↔◌, refl, Bool, true, false, ◌&&◌, none, some, List, [], ◌∷◌, ltb, leb, arith,
  if◌then◌else◌,
}
use pracer.Detector.Access.{MemAccess, max_grain_size}
use pracer.Detector.Slot.{Access, run}
use pracer.Detector.Slot.Order.{Executed, racy}
use pracer.Detector.Slot.Exact.{run-racy}
use pracer.Detector.Shadow.{ShadowDir, empty_dir, find, insert, clear_shadow_memory}
use pracer.Detector.Shadow.Laws.{find-clear_shadow_memory}
use pracer.Detector.Memory.{MemEvent, MemAccessList, record_block, record_all}
use pracer.Detector.Memory.Block.{slot_at, record_block-small}
use pracer.Detector.Memory.Exact.{accesses}
use pracer.Detector.Memory.Bytes.{of_byte, record_all-racy}

abbrev self_position : ℕ → ℕ
self_position x = x

-- Two parallel strands.
abbrev upper : MemAccess
upper = record { estrand = 1; hstrand = 2; rip = 400 }

abbrev lower : MemAccess
lower = record { estrand = 2; hstrand = 1; rip = 404 }

abbrev history : List Access
history = record { is_read = false; by = lower } ∷ record { is_read = true; by = upper } ∷ []

history-Executed : Executed self_position self_position history
history-Executed = ground arith

run-racy_example : (run ltb ltb history).0 ≡ racy self_position self_position history
run-racy_example =
    run-racy self_position self_position ltb ltb (λ x y. refl) (λ x y. refl) history
      history-Executed

run_finds : (run ltb ltb history).0 ≡ true
unfolding run
run_finds = refl

abbrev write_16 : MemEvent
write_16 = record { is_read = false; addr = 32; mem_size = 16; by = lower }

abbrev read_4 : MemEvent
read_4 = record { is_read = true; addr = 40; mem_size = 4; by = upper }

abbrev events : List MemEvent
events = write_16 ∷ read_4 ∷ []

events-Executed : Executed self_position self_position (accesses events)
events-Executed = ground arith

record_all-racy_example :
    (found : Bool) × (dir : ShadowDir MemAccessList) × (record_all ltb ltb events
      ≡ some (found, dir))
    × ((found ≡ true)
        ↔ ((byte : ℕ) × (racy self_position self_position (of_byte byte events) ≡ true)))
record_all-racy_example =
    record_all-racy self_position self_position ltb ltb (λ x y. refl) (λ x y. refl) events
      (omega arith) events-Executed

abbrev blocks : ShadowDir ℕ
blocks = (insert (insert empty_dir 2 70).1 5 80).1

find-clear_shadow_memory_example :
    (dir' : ShadowDir ℕ) × (clear_shadow_memory 9
        (2 * max_grain_size)
        ((2 + 2) * max_grain_size)
        blocks
      ≡ some dir')
    × ((j : ℕ) → find dir' j ≡ (if leb 2 j && ltb j (2 + 2) then none else find blocks j))
find-clear_shadow_memory_example = find-clear_shadow_memory 2 9 2 blocks (omega arith)

abbrev write_1 : MemEvent
write_1 = record { is_read = false; addr = 40; mem_size = 1; by = lower }

record_block-small_example :
    ((record_block ltb ltb write_1 empty_dir).0 ≡ false)
    × ((key j : ℕ)
        → slot_at (record_block ltb ltb write_1 empty_dir).1 key j ≡ slot_at empty_dir key j)
record_block-small_example = record_block-small ltb ltb write_1 empty_dir (omega arith)
