-- ===== src/Pipeline/OmOrder.antt =====
-- What the strands need of omrd_t, the detector's order of strands: nodes that stand in an order,
-- to which insert adds one right behind a given node.
pub mod Nodes
use pracer.Base.{ℕ, ◌≡◌, Bool, true, false, ◌||◌, ◌==◌}

pub record OmOrder (S : Type 0) : Type 0 where
  pub has : S → ℕ → Bool
  pub precedes : S → ℕ → ℕ → Bool
  pub get_base : S → ℕ
  pub insert : ℕ → S → ℕ × S
  pub insert_new : (s : S) (base : ℕ) → has s (insert base s).0 ≡ false
  pub insert_has :
      (s : S) (base x : ℕ)
      → has s base ≡ true
      → has (insert base s).1 x ≡ ((x == (insert base s).0) || has s x)
  pub insert_old :
      (s : S) (base x y : ℕ)
      → has s x ≡ true
      → has s y ≡ true
      → precedes (insert base s).1 x y ≡ precedes s x y
  pub insert_below :
      (s : S) (base x : ℕ)
      → has s base ≡ true
      → has s x ≡ true
      → precedes (insert base s).1 x (insert base s).0 ≡ ((x == base) || precedes s x base)
  pub insert_above :
      (s : S) (base x : ℕ)
      → has s base ≡ true
      → has s x ≡ true
      → precedes (insert base s).1 (insert base s).0 x ≡ precedes s base x
  pub precedes_trans :
      (s : S) (x y z : ℕ) → precedes s x y ≡ true → precedes s y z ≡ true → precedes s x z ≡ true
  pub precedes_asym : (s : S) (x y : ℕ) → precedes s x y ≡ true → precedes s y x ≡ false
