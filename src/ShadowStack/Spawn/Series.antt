-- ===== src/ShadowStack/Spawn/Series.antt =====
-- What is in series and what is parallel around a spawn.
use pracer.Base.{ℕ, ◌≡◌, Bool, true, false, Option, none, some}
use pracer.Pipeline.OmOrder.{OmOrder}
use pracer.ShadowStack.Spawn.{FrameData, sync, leave}

-- The frame of a function whose strand runs.
abbrev pub running : (ce ch : ℕ) → (se sh : Option ℕ) → (full : Bool) → FrameData
running ce ch se sh full = record {
  current_english = some ce;
  current_hebrew = some ch;
  cont_english = none;
  cont_hebrew = none;
  sync_english = se;
  sync_hebrew = sh;
  is_helper = false;
  is_full = full;
}

-- The frame of a function that has spawned a child.
abbrev pub spawning : (pe ph se sh : ℕ) → (full : Bool) → FrameData
spawning pe ph se sh full = record {
  current_english = none;
  current_hebrew = none;
  cont_english = some pe;
  cont_hebrew = some ph;
  sync_english = some se;
  sync_hebrew = some sh;
  is_helper = false;
  is_full = full;
}

abbrev pub helper : (fe fh : ℕ) → FrameData
helper fe fh = record {
  current_english = some fe;
  current_hebrew = some fh;
  cont_english = none;
  cont_hebrew = none;
  sync_english = none;
  sync_hebrew = none;
  is_helper = true;
  is_full = false;
}

-- A spawn group is open in both orders or in none.
abbrev pub Alike : Option ℕ → Option ℕ → Type 0
Alike none none = Unit
Alike (some x) (some y) = Unit
Alike none (some y) = ⊥
Alike (some x) none = ⊥

module _ {S : Type 0} (o : OmOrder S) where
  -- The strand is in an order, and the sync node of its group, if there is one, behind it.
  abbrev pub Ready : S → Option ℕ → ℕ → Type 0
  Ready s none current = o.has s current ≡ true
  Ready s (some node) current =
      (o.has s current ≡ true) × (o.has s node ≡ true) × (o.precedes s current node ≡ true)

  abbrev pub Line : S → (w x y z : ℕ) → Type 0
  Line s w x y z = (o.precedes s w x ≡ true) × (o.precedes s x y ≡ true) × (o.precedes s y z ≡ true)

  -- The sync node of the group that was open, or a new node where none was.
  abbrev pub OfGroup : S → (open_node : Option ℕ) → ℕ → Type 0
  OfGroup s none node = o.has s node ≡ false
  OfGroup s (some open_node) node = node ≡ open_node

  abbrev pub SpawnedFrom :
      (english hebrew : S)
      → (ce ch : ℕ) → (open_e open_h : Option ℕ) → (full : Bool)
      → Option (FrameData × FrameData × S × S)
      → Type 0
  SpawnedFrom english hebrew ce ch open_e open_h full result =
      (fe : ℕ) × (fh : ℕ) × (pe : ℕ) × (ph : ℕ) × (se : ℕ) × (sh : ℕ) × (e : S) × (h : S) × (result
        ≡ some (spawning pe ph se sh full, helper fe fh, e, h))
      × OfGroup english open_e se
      × OfGroup hebrew open_h sh
      × Line e ce fe pe se
      × Line h ch ph fh sh
      × (leave (helper fe fh) (spawning pe ph se sh full) ≡ running pe ph (some se) (some sh) full)
      × (sync (running pe ph (some se) (some sh) full) ≡ running se sh none none full)
