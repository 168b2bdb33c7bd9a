-- ===== src/Pipeline/Rows.antt =====
-- The strands of a pipeline as rows, one for each iteration, and how they stand in the two orders:
-- the invariants that every stage keeps.
pub mod Lines
pub mod Grow
pub mod Starts
pub mod Shapes
pub mod Places
pub mod Down
pub mod Right
use pracer.Base.{ℕ, suc, ◌+◌, ◌-◌, ◌≤◌, ◌<◌, ◌≡◌, true, ◌⊎◌}
use pracer.Pipeline.OmOrder.{OmOrder}

-- A strand: its node in one order with its two continuations, and the last stage of the row before
-- that it comes after.
pub record Strand : Type 0 where
  pub current : ℕ
  pub right : ℕ
  pub down : ℕ
  pub dep : ℕ

-- Rows 1 to `count`; row i has the strands 0 to `len i` - 1, and looks next at the stage `cursor i`
-- of the row before.
pub record Shape : Type 0 where
  pub count : ℕ
  pub len : ℕ → ℕ
  pub cursor : ℕ → ℕ

abbrev pub InRow : Shape → (i k : ℕ) → Type 0
InRow g i k = (1 ≤ i) × (i ≤ g.count) × (k < g.len i)

module _ {S : Type 0} (o : OmOrder S) (s : S) where
  abbrev pub Lt : ℕ → ℕ → Type 0
  Lt x y = o.precedes s x y ≡ true

  abbrev pub Le : ℕ → ℕ → Type 0
  Le x y = (x ≡ y) ⊎ (o.precedes s x y ≡ true)

-- What does not depend on the orders.
pub record Shaped (g : Shape) (v : ℕ → ℕ → Strand) : Type 0 where
  pub started : (i : ℕ) → 1 ≤ i → i ≤ g.count → 0 < g.len i
  pub dep_bound : (i k : ℕ) → 1 ≤ i → InRow g (suc i) k → (v (suc i) k).dep < g.len i
  pub dep_cursor : (i : ℕ) → 1 ≤ i → i ≤ g.count → suc (v i (g.len i - 1)).dep ≡ g.cursor i
  pub dep_first : (i : ℕ) → 1 ≤ i → i ≤ g.count → (v i 0).dep ≡ 0

module _ {S : Type 0} (o : OmOrder S) where
  -- The right-first order, Hebrew.
  pub record RightFirst (s : S) (g : Shape) (v : ℕ → ℕ → Strand) : Type 0 where
    pub in_current : (i k : ℕ) → InRow g i k → o.has s (v i k).current ≡ true
    pub in_right : (i k : ℕ) → InRow g i k → o.has s (v i k).right ≡ true
    pub in_down : (i k : ℕ) → InRow g i k → o.has s (v i k).down ≡ true
    pub current_right : (i k : ℕ) → InRow g i k → Lt o s (v i k).current (v i k).right
    pub right_down : (i k : ℕ) → InRow g i k → Lt o s (v i k).right (v i k).down
    pub down_next : (i k : ℕ) → InRow g i (suc k) → Le o s (v i k).down (v i (suc k)).current
    pub down_down :
        (i k : ℕ)
        → 1 ≤ i
        → InRow g (suc i) k
        → Lt o s (v (suc i) k).down (v i (v (suc i) k).dep).down
    pub right_current :
        (i k : ℕ)
        → 1 ≤ i
        → InRow g (suc i) k
        → Le o s (v i (v (suc i) k).dep).right (v (suc i) k).current
    pub pending :
        (i x : ℕ)
        → 1 ≤ i
        → suc i ≤ g.count
        → g.cursor (suc i) ≤ x
        → x < g.len i
        → Lt o s (v (suc i) (g.len (suc i) - 1)).down (v i x).right

  -- The down-first order, English.
  pub record DownFirst (s : S) (g : Shape) (v : ℕ → ℕ → Strand) : Type 0 where
    pub in_current : (i k : ℕ) → InRow g i k → o.has s (v i k).current ≡ true
    pub in_right : (i k : ℕ) → InRow g i k → o.has s (v i k).right ≡ true
    pub in_down : (i k : ℕ) → InRow g i k → o.has s (v i k).down ≡ true
    pub current_down : (i k : ℕ) → InRow g i k → Lt o s (v i k).current (v i k).down
    pub down_next : (i k : ℕ) → InRow g i (suc k) → (v i k).down ≡ (v i (suc k)).current
    pub last_right : (i : ℕ) → 1 ≤ i → i ≤ g.count → Lt o s (v i (g.len i - 1)).down (v i 0).right
    pub right_next : (i : ℕ) → 1 ≤ i → suc i ≤ g.count → (v i 0).right ≡ (v (suc i) 0).current
