-- ===== src/Om/Relabel/Halves.antt =====
-- The two halves that rebuild_recursive is called on are ready in their turn.
use pracer.Base.{
  ℕ, ◌≡◌, ◌∙◌, true, false, ◌||◌, List, [], ◌∷◌, ◌++◌, arith, take, drop, take-append-drop, mem,
  mem-append, Unique, Disjoint, Unique-append,
}
use pracer.Om.Store.{Ptr, TlNode, Map}
use pracer.Om.Relabel.Rebuild.{Leaves}

pub Leaves-split :
    (m : Map TlNode) (below : Ptr → Ptr) (xs ys : List Ptr)
    → Leaves m below (xs ++ ys)
    → Leaves m below xs × Leaves m below ys
Leaves-split m below [] ys l = (tt, l)
Leaves-split m below (x ∷ xs) ys (ne, at, l) =
    let (front, back) = Leaves-split m below xs ys l in ((ne, at, front), back)

pub Leaves-frame :
    (m g : Map TlNode) (below : Ptr → Ptr) (xs : List Ptr)
    → Leaves m below xs
    → ((a : Ptr) → mem a xs ≡ true → g a ≡ m a)
    → Leaves g below xs
Leaves-frame m g below [] l same = tt
Leaves-frame m g below (x ∷ xs) (ne, (c, at, eq), l) same = (
  ne,
  (c, same x (ground arith) ∙ at, eq),
  Leaves-frame m g below xs l (λ a i. same a (ground arith)),
)

-- A list cut in two.
pub record Cut (xs front back : List ℕ) : Type 0 where
  pub whole : front ++ back ≡ xs
  pub front_sub : Disjoint front back
  pub unique_front : Unique front
  pub unique_back : Unique back

pub mem-front :
    (a : ℕ) {xs front back : List ℕ} → Cut xs front back → mem a front ≡ true → mem a xs ≡ true
mem-front a {xs} {front} {back} c i = rw (← c.whole) (rw (mem-append a front back, i))

pub mem-back :
    (a : ℕ) {xs front back : List ℕ} → Cut xs front back → mem a back ≡ true → mem a xs ≡ true
mem-back a {xs} {front} {back} c i = rw (← c.whole) (rw (mem-append a front back) (ground arith))

pub not-mem_parts :
    (a : ℕ) {xs front back : List ℕ}
    → Cut xs front back
    → mem a xs ≡ false
    → (mem a front ≡ false) × (mem a back ≡ false)
not-mem_parts a {xs} {front} {back} c out =
    let e : (mem a front || mem a back) ≡ false = rw (← mem-append a front back, c.whole) out in
    (ground arith, ground arith)

pub cut : (k : ℕ) (xs : List ℕ) → Unique xs → Cut xs (take k xs) (drop k xs)
cut k xs u =
    let (front, back, apart) =
      Unique-append (take k xs) (drop k xs) (rw (take-append-drop k xs) u) in
    record {
      whole = take-append-drop k xs;
      front_sub = apart;
      unique_front = front;
      unique_back = back;
    }
