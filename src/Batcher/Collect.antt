-- ===== src/Batcher/Collect.antt =====
-- What collect_batch takes.
use pracer.Base.{ℕ, ◌≡◌, false, List, [], ◌∷◌, if◌then◌else◌}
use pracer.Mutex.Worker.{Mutex}
use pracer.Batcher.{item_in_progress, is_in_progress, BatchRecord, Batch, selected}

-- The data of the selected records, in the order of the workers.
abbrev pub collected : Batch → List BatchRecord → List ℕ
collected pending [] = []
collected pending (r ∷ rs) =
    if selected pending r then r.data_of ∷ collected pending rs else collected pending rs

abbrev pub started : Batch → BatchRecord → BatchRecord
started pending r = if selected pending r then record r { status = item_in_progress } else r

abbrev pub NoneInProgress : List BatchRecord → Type 0
NoneInProgress [] = Unit
NoneInProgress (r ∷ rs) = (is_in_progress r.status ≡ false) × NoneInProgress rs
