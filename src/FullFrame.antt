-- ===== src/FullFrame.antt =====
-- batched-piper/runtime/full_frame.c. Pointers are addresses, 0 for NULL; the memory of a new frame
-- holds arbitrary values in its members.
pub mod Laws
use pracer.Base.{
  ℕ, ◌+◌, ◌-◌, ◌%◌, ◌^◌, Bool, true, false, ◌&&◌, ◌||◌, not, Option, none, some, ◌==◌,
  if◌then◌else◌,
}
use pracer.Mutex.Worker.{Mutex, mutex_init}

pub data Flags : Type 0 where
  ff_normal_cilk ff_pipe_resuming_iter ff_pipe_resuming_control : Flags
  ff_pipe_suspended_iter ff_pipe_suspended_control : Flags

pub data FrameType : Type 0 where
  ff_default_type ff_pipe_iter ff_pipe_iter_call_descendant ff_pipe_iter_simulated : FrameType

abbrev pub is_pipe_iter : FrameType → Bool
is_pipe_iter ff_pipe_iter = true
is_pipe_iter _ = false

-- FULL_FRAME_MAGIC_0 and FULL_FRAME_MAGIC_1.
abbrev pub magic_0 : ℕ
magic_0 = 3899678621917762899

abbrev pub magic_1 : ℕ
magic_1 = 1772596211148054986

abbrev pub word : ℕ
word = 2 ^ 64

pub record FullFrame : Type 0 where
  pub full_frame_magic_0 : ℕ
  pub lock : Mutex
  pub join_counter : ℕ
  pub is_call_child : ℕ
  pub frame_type : FrameType
  pub pipe_iter_root : ℕ
  pub resume_flags : Flags
  pub simulated_stolen : ℕ
  pub parent : ℕ
  pub left_sibling : ℕ
  pub right_sibling : ℕ
  pub rightmost_child : ℕ
  pub call_stack : ℕ
  pub children_reducer_map : ℕ
  pub right_reducer_map : ℕ
  pub pending_exception : ℕ
  pub child_pending_exception : ℕ
  pub right_pending_exception : ℕ
  pub sync_sp : ℕ
  pub frame_size : ℕ
  pub fiber_self : ℕ
  pub fiber_child : ℕ
  pub sync_master : ℕ
  pub full_frame_magic_1 : ℕ

unfoldable pub reset_full_frame : FullFrame → (sf : ℕ) → FullFrame
reset_full_frame ff sf = record ff {
  join_counter = 0;
  parent = 0;
  rightmost_child = 0;
  left_sibling = 0;
  right_sibling = 0;
  call_stack = sf;
  is_call_child = 0;
  resume_flags = ff_normal_cilk;
  simulated_stolen = 0;
  children_reducer_map = 0;
  right_reducer_map = 0;
  pending_exception = 0;
  child_pending_exception = 0;
  right_pending_exception = 0;
  sync_sp = 0;
  frame_size = 0;
  fiber_self = 0;
  fiber_child = 0;
  sync_master = 0;
}

unfoldable pub init_full_frame : FullFrame → (sf : ℕ) → FullFrame
unfolding reset_full_frame mutex_init
init_full_frame ff sf =
    reset_full_frame
      (record ff {
        lock = mutex_init;
        full_frame_magic_0 = magic_0;
        frame_type = ff_default_type;
        pipe_iter_root = 0;
        full_frame_magic_1 = magic_1;
      })
      sf

-- `sp` is what __cilkrts_get_sp returns for the stack frame.
unfoldable pub put_stack : FullFrame → (sp : ℕ) → FullFrame
put_stack ff sp = record ff { sync_sp = (sp + ff.sync_sp) % word }

unfoldable pub take_stack : FullFrame → (sp : ℕ) → FullFrame
take_stack ff sp = record ff { sync_sp = (ff.sync_sp + word - sp) % word }

unfoldable pub adjust_stack : FullFrame → (size : ℕ) → FullFrame
adjust_stack ff size = record ff { sync_sp = (ff.sync_sp + size) % word }

-- False where the program is stopped.
unfoldable pub validate_full_frame : FullFrame → Bool
validate_full_frame ff =
    not (not (ff.full_frame_magic_0 == magic_0) || not (ff.full_frame_magic_1 == magic_1))

-- Whether __cilkrts_destroy_full_frame gives the frame's memory back: none of its checks stops it.
unfoldable pub destroy_full_frame : FullFrame → Bool
unfolding validate_full_frame
destroy_full_frame ff =
    validate_full_frame ff
    && (ff.children_reducer_map == 0)
    && (ff.right_reducer_map == 0)
    && (ff.pending_exception == 0)
    && (ff.child_pending_exception == 0)
    && (ff.right_pending_exception == 0)
    && not (is_pipe_iter ff.frame_type)
