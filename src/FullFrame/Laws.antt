-- ===== src/FullFrame/Laws.antt =====
-- The stack offsets and the life of a full frame.
use pracer.Base.{ℕ, ◌+◌, ◌-◌, ◌%◌, ◌<◌, ◌≡◌, refl, ap, true, arith}
use pracer.FullFrame.{
  FullFrame, word, reset_full_frame, init_full_frame, put_stack, take_stack, adjust_stack,
  validate_full_frame, destroy_full_frame,
}

-- Resuming at a stack pointer and suspending at another moves the sync stack pointer by the
-- difference of the two, in 64-bit arithmetic; in particular the frame is restored where they are
-- equal. The three pointers are below 2 ^ 64.
pub put_stack-take_stack :
    (ff : FullFrame) (sp sp' : ℕ)
    → ff.sync_sp < word
    → sp < word
    → sp' < word
    → ((put_stack (take_stack ff sp) sp').sync_sp ≡ (ff.sync_sp + sp' + (word - sp)) % word)
      × (put_stack (take_stack ff sp) sp ≡ ff)
unfolding put_stack take_stack
put_stack-take_stack ff sp sp' lt lt1 lt2 = (
  omega arith,
  ap (λ p. record ff { sync_sp = p })
      (let same : (sp + (ff.sync_sp + word - sp) % word) % word ≡ ff.sync_sp = omega arith in same),
)

-- A frame that was just initialised and then only moved its stack pointer passes the checks of
-- __cilkrts_destroy_full_frame, whatever its memory held before; and a reset keeps the answer of
-- validate_full_frame for every frame.
pub destroy-init :
    (ff : FullFrame) (sf sp sp' size : ℕ)
    → (destroy_full_frame
          (adjust_stack (put_stack (take_stack (init_full_frame ff sf) sp) sp') size)
        ≡ true)
      × (validate_full_frame (reset_full_frame ff sf) ≡ validate_full_frame ff)
unfolding destroy_full_frame adjust_stack put_stack take_stack init_full_frame reset_full_frame
destroy-init ff sf sp sp' size = (refl, refl)
