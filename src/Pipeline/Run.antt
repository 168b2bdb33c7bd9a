-- ===== src/Pipeline/Run.antt =====
-- The runs of a pipeline: the calls that the runtime makes of PiperRDControl,
-- rdtool/include/piper_rd.h, with the strands that they record.
pub mod Tracks
pub mod Started
pub mod Tracked
pub mod Chains
pub mod Scans
pub mod Cuts
pub mod Kept
pub mod Routes
pub mod First
pub mod Steps
use pracer.Base.{ℕ, suc, ◌+◌, ◌≤◌, ◌<◌, ◌≡◌, true, some}
use pracer.Pipeline.OmOrder.{OmOrder}
use pracer.Pipeline.Items.{get}
use pracer.Pipeline.Iterations.{new_iterations, get_stage_frame_list}
use pracer.Pipeline.Strands.{
  StageFrame, StageList, Control, cilk_stage_first, cilk_stage_wait, cilk_stage,
}
use pracer.Pipeline.Rows.{Shape, Strand}
use pracer.Pipeline.Rows.Shapes.{opened, extended}

abbrev pub no_rows : Shape
no_rows = record { count = 0; len = λ _. 0; cursor = λ _. 0 }

-- The frame of strand k of iteration i, and the stage of the iteration before that its list's index
-- had passed last.
abbrev pub right_strands : (ℕ → ℕ → StageFrame) → (ℕ → ℕ → ℕ) → ℕ → ℕ → Strand
right_strands f dep i k = record {
  current = (f i k).right_first.current;
  right = (f i k).right_first.right_cont;
  down = (f i k).right_first.down_cont;
  dep = dep i k;
}

abbrev pub down_strands : (ℕ → ℕ → StageFrame) → (ℕ → ℕ → ℕ) → ℕ → ℕ → Strand
down_strands f dep i k = record {
  current = (f i k).down_first.current;
  right = (f i k).down_first.right_cont;
  down = (f i k).down_first.down_cont;
  dep = dep i k;
}

module _ {S : Type 0} (o : OmOrder S) (limit : ℕ) where
  -- The iteration has begun, and is one of the last `limit`, which alone may run.
  abbrev pub Active : Shape → ℕ → Type 0
  Active g i = (1 ≤ i) × (i ≤ g.count) × (g.count < i + limit)

  module _ (f : ℕ → ℕ → StageFrame) (dep : ℕ → ℕ → ℕ) where
    -- Frame k of the list of iteration i is `f i k`, and `dep i k` the stage of the iteration before
    -- that the list's index has passed last.
    abbrev pub Recorded : Control o → (i k : ℕ) → StageList → Type 0
    Recorded c i k list =
        (get_stage_frame_list c.iterations i ≡ some list)
        × (get list.items k ≡ some (f i k))
        × (suc (dep i k) ≡ list.index)

    pub data Run : Shape → Control o → Type 0 where
      begin :
          (c : Control o)
          → c.iterations ≡ new_iterations limit
          → o.has c.english (o.get_base c.english) ≡ true
          → o.has c.hebrew (o.get_base c.hebrew) ≡ true
          → Run no_rows c
      first :
          {g : Shape} {c c' : Control o} (list : StageList)
          → Run g c
          → cilk_stage_first o (suc g.count) c ≡ some c'
          → Recorded c' (suc g.count) 0 list
          → Run (opened g) c'
      wait :
          {g : Shape} {c c' : Control o} (i stage : ℕ) (list : StageList)
          → Run g c
          → Active g i
          → cilk_stage_wait o i stage c ≡ some c'
          → Recorded c' i (g.len i) list
          → Run (extended i list.index g) c'
      stage :
          {g : Shape} {c c' : Control o} (i number : ℕ) (list : StageList)
          → Run g c
          → Active g i
          → cilk_stage o i number c ≡ some c'
          → Recorded c' i (g.len i) list
          → Run (extended i list.index g) c'
