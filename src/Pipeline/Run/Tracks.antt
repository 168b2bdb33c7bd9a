-- ===== src/Pipeline/Run/Tracks.antt =====
-- The invariant of a run: what is in the ring of iterations, in the lists and in the two orders.
use pracer.Base.{
  ℕ, suc, ◌≤◌, ◌<◌, ◌≡◌, ◌∙◌, sym, true, false, some, ◌==◌, Bool-cases, inl, inr, arith,
}
use pracer.Pipeline.OmOrder.{OmOrder}
use pracer.Pipeline.Items.{get}
use pracer.Pipeline.Items.Laws.{IsRoomy}
use pracer.Pipeline.Iterations.Laid.{Laid}
use pracer.Pipeline.Iterations.Change.{with_list}
use pracer.Pipeline.Strands.{StageFrame, StageList, Control}
use pracer.Pipeline.Strands.Places.{Behind}
use pracer.Pipeline.Rows.{Shape, InRow, Shaped, RightFirst, DownFirst}
use pracer.Pipeline.Rows.Grow.{Grown, LeftOf, grown-Shaped}
use pracer.Pipeline.Rows.Right.{RightPlace, new_strand-RightFirst}
use pracer.Pipeline.Rows.Down.{DownPlace, new_strand-DownFirst}
use pracer.Pipeline.Run.{right_strands, down_strands}

pub down_strands-Shaped :
    (g : Shape) (f : ℕ → ℕ → StageFrame) (dep : ℕ → ℕ → ℕ)
    → Shaped g (right_strands f dep)
    → Shaped g (down_strands f dep)
down_strands-Shaped g f dep shaped = record {
  started = shaped.started;
  dep_bound = shaped.dep_bound;
  dep_cursor = shaped.dep_cursor;
  dep_first = shaped.dep_first;
}

module _ {S : Type 0} (o : OmOrder S) (limit : ℕ) (pos : 1 ≤ limit) (f : ℕ → ℕ → StageFrame)
    (dep : ℕ → ℕ → ℕ) where
  pub record Tracks (g : Shape) (c : Control o) (lists : ℕ → StageList) (q : ℕ) : Type 0 where
    pub laid : Laid lists limit pos q g.count c.iterations
    pub roomy : (i : ℕ) → 1 ≤ i → i ≤ g.count → IsRoomy (lists i).items
    pub length : (i : ℕ) → 1 ≤ i → i ≤ g.count → (lists i).items.length ≡ g.len i
    pub index : (i : ℕ) → 1 ≤ i → i ≤ g.count → (lists i).index ≡ g.cursor i
    pub frames : (i k : ℕ) → InRow g i k → get (lists i).items k ≡ some (f i k)
    pub shaped : Shaped g (right_strands f dep)
    pub right_first : RightFirst o c.hebrew g (right_strands f dep)
    pub down_first : DownFirst o c.english g (down_strands f dep)
    pub english_base : g.count ≡ 0 → o.has c.english (o.get_base c.english) ≡ true
    pub hebrew_base : g.count ≡ 0 → o.has c.hebrew (o.get_base c.hebrew) ≡ true

  module _ (g g' : Shape) (c c' : Control o) (lists : ℕ → StageList) (q q' i k : ℕ)
      (list : StageList) (h : Tracks g c lists q) (grown : Grown g g' i k)
      (laid : Laid (with_list i list lists) limit pos q' g'.count c'.iterations)
      (room : IsRoomy list.items) (size : list.items.length ≡ suc k)
      (index : list.index ≡ g'.cursor i)
      (frames : (m : ℕ) → m < suc k → get list.items m ≡ some (f i m))
      (left : LeftOf g g' (right_strands f dep) i k)
      (right_place : RightPlace o c.hebrew g g' (right_strands f dep) i k)
      (down_place : DownPlace o c.english (down_strands f dep) i k)
      (hebrew : Behind o c.hebrew c'.hebrew
        (f i k).right_first.current
        (f i k).right_first.right_cont
        (f i k).right_first.down_cont)
      (english : Behind o c.english c'.english
        (f i k).down_first.current
        (f i k).down_first.down_cont
        (f i k).down_first.right_cont) where
    -- What holds of the new list, and of the old lists, holds of all.
    in_all :
        (P : ℕ → StageList → Type 0)
        → P i list
        → ((j : ℕ) → 1 ≤ j → j ≤ g.count → (j == i) ≡ false → P j (lists j))
        → (j : ℕ) → 1 ≤ j
        → j ≤ g'.count
        → P j (with_list i list lists j)
    in_all P new old j first last = elim (Bool-cases (j == i)) [
      | inl here ↦ let e : j ≡ i = ground arith in rw (here, e) new
      | inr other ↦ rw other (old j first (grown.count_other j other last) other)
    ]

    pub grown-Tracks : Tracks g' c' (with_list i list lists) q'
    grown-Tracks = record {
      laid = laid;
      roomy = in_all (λ j l. IsRoomy l.items) room (λ j first last ne. h.roomy j first last);
      length =
          in_all (λ j l. l.items.length ≡ g'.len j) (size ∙ sym grown.len_here)
            (λ j first last ne. h.length j first last ∙ sym (grown.len_other j ne));
      index =
          in_all (λ j l. l.index ≡ g'.cursor j) index
            (λ j first last ne. h.index j first last ∙ sym (grown.cursor_other j ne));
      frames = λ j m at.
          in_all (λ r l. m < g'.len r → get l.items m ≡ some (f r m))
            (λ lt. frames m (omega (arith, grown.len_here)))
            (λ r first last ne lt. h.frames r m (first, last, omega (arith, grown.len_other r ne)))
            j at.0 at.1 at.2;
      shaped = grown-Shaped g g' i k grown _ left h.shaped;
      right_first =
          new_strand-RightFirst o c.hebrew c'.hebrew g g' _ i k grown left h.shaped h.right_first
            right_place hebrew;
      down_first =
          new_strand-DownFirst o c.english c'.english g g' _ i k grown
            (down_strands-Shaped g f dep h.shaped) h.down_first down_place english;
      english_base = λ none. absurd (omega (arith, grown.row, grown.counted));
      hebrew_base = λ none. absurd (omega (arith, grown.row, grown.counted));
    }
