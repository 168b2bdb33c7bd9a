-- ===== src/Pipeline/Iterations/Change.antt =====
-- The ring of iterations where the list of one of them changes, and where the next list goes in.
use pracer.Base.{
  ℕ, zero, suc, ◌+◌, ◌-◌, ltb, ltb→lt, ◌≤◌, ◌<◌, ◌≡◌, ◌∙◌, refl, sym, false, some, ◌==◌,
  if◌then◌else◌, arith, ◌*◌, Bool-cases, eqb_of_ne, eqb_refl, ap, inl, inr,
}
use pracer.Pipeline.Iterations.{Iterations, get_index, insert_stage_frame_list}
use pracer.Pipeline.Iterations.Laid.{Laid, get_index-place, eq_of, ne_lt, insert-inner, insert-wrap}

abbrev pub with_list : {A : Type 0} → ℕ → A → (ℕ → A) → ℕ → A
with_list i l list j = if j == i then l else list j

same_shift : (a x r : ℕ) → (x == r) ≡ (a + suc x == a + suc r)
same_shift a x r = ground arith

not_lt : (a b : ℕ) → ltb a b ≡ false → b ≤ a
not_lt a b h = ground arith

module _ {A : Type 0} (list : ℕ → A) (limit : ℕ) (pos : 1 ≤ limit) where
  abbrev pub changed : ℕ → A → Iterations A → Iterations A
  changed i l s = record s { p = λ x. if x == get_index s i then some l else s.p x }

  -- An entry of the ring after the change, if it has the iteration j, which is i exactly where the
  -- entry is that of i.
  entry :
      (s : Iterations A) (i x j : ℕ) (l : A)
      → s.p x ≡ some (list j)
      → (x == get_index s i) ≡ (j == i)
      → (changed i l s).p x ≡ some (with_list i l list j)
  entry s i x j l old same = elim (Bool-cases (j == i)) [
    | inl here ↦ rw (same, here) refl
    | inr other ↦ rw (same, other) old
  ]

  lap : (q q' : ℕ) → q ≡ suc q' → q * (limit + 1) ≡ q' * (limit + 1) + (limit + 1)
  lap q q' e = rw e (grind arith)

  index_of :
      (s : Iterations A) (q r i : ℕ)
      → s.throttle_limit ≡ limit
      → r ≤ limit
      → i ≡ q * (limit + 1) + suc r
      → get_index s i ≡ r
  index_of s q r i same le e = rw e (get_index-place list limit pos s q r same le)

  -- The iteration is of the present lap.
  newest_changed :
      (q n i r : ℕ) (s : Iterations A) (l : A)
      → Laid list limit pos q n s
      → i ≡ q * (limit + 1) + suc r
      → r < s.head
      → Laid (with_list i l list) limit pos q n (changed i l s)
  newest_changed q n i r s l laid e inside =
      let at = index_of s q r i laid.same_limit (omega (arith, laid.within)) e in
      record {
        same_limit = laid.same_limit;
        count = laid.count;
        within = laid.within;
        tail_at = laid.tail_at;
        newest = λ x lt.
            entry s i x (q * (limit + 1) + suc x) l (laid.newest x lt)
              (rw (at, e) (same_shift (q * (limit + 1)) x r));
        older = λ x q' e' le le'.
            entry s i x (q' * (limit + 1) + suc x) l (laid.older x q' e' le le') (
              eqb_of_ne x (get_index s i) (omega (arith, at))
              ∙ sym (eqb_of_ne _ i (omega (arith, lap q q' e'))));
      }

  -- It is of the lap before.
  older_changed :
      (q q' n i r : ℕ) (s : Iterations A) (l : A)
      → Laid list limit pos q n s
      → q ≡ suc q'
      → i ≡ q' * (limit + 1) + suc r
      → s.head ≤ r
      → r ≤ limit
      → Laid (with_list i l list) limit pos q n (changed i l s)
  older_changed q q' n i r s l laid e' e outside bound =
      let at = index_of s q' r i laid.same_limit bound e in
      record {
        same_limit = laid.same_limit;
        count = laid.count;
        within = laid.within;
        tail_at = laid.tail_at;
        newest = λ x lt. entry s i x (q * (limit + 1) + suc x) l (laid.newest x lt) (
            eqb_of_ne x (get_index s i) (omega (arith, at))
            ∙ sym (eqb_of_ne _ i (omega (arith, lap q q' e'))));
        older = λ x q'' e'' le le'.
            let same : q'' ≡ q' = omega arith in
            entry s i x (q'' * (limit + 1) + suc x) l (laid.older x q'' e'' le le')
              (rw (at, e, same) (same_shift (q' * (limit + 1)) x r));
      }

  change_before :
      (q n i : ℕ) (s : Iterations A) (l : A)
      → Laid list limit pos q n s
      → 1 ≤ i
      → n < i + (limit + 1)
      → i ≤ q * (limit + 1)
      → Laid (with_list i l list) limit pos q n (changed i l s)
  change_before zero n i s l laid first near le = absurd (omega arith)
  change_before (suc q') n i s l laid first near le =
      let r = i - q' * (limit + 1) - 1 in
      let turn = lap (suc q') q' refl in
      older_changed (suc q') q' n i r s l laid refl (omega (arith, laid.count))
        (omega (arith, laid.count)) (omega arith)

  pub change-Laid :
      (q n i : ℕ) (s : Iterations A) (l : A)
      → Laid list limit pos q n s
      → 1 ≤ i
      → i ≤ n
      → n < i + (limit + 1)
      → Laid (with_list i l list) limit pos q n (changed i l s)
  change-Laid q n i s l laid first last near = elim (Bool-cases (ltb (q * (limit + 1)) i)) [
    | inl now ↦
        let lt : q * (limit + 1) < i = ltb→lt _ _ now in
        newest_changed q n i (i - q * (limit + 1) - 1) s l laid (omega arith)
          (omega (arith, laid.count))
    | inr before ↦ change_before q n i s l laid first near (not_lt _ _ before)
  ]

  -- The list of an iteration to come is not in the ring.
  pub later-Laid :
      (q n : ℕ) (s : Iterations A) (l : A)
      → Laid list limit pos q n s
      → Laid (with_list (suc n) l list) limit pos q n s
  later-Laid q n s l laid = record {
    same_limit = laid.same_limit;
    count = laid.count;
    within = laid.within;
    tail_at = laid.tail_at;
    newest = λ x lt.
        rw (eqb_of_ne (q * (limit + 1) + suc x) (suc n) (omega (arith, laid.count)))
          (laid.newest x lt);
    older = λ x q' e le le'.
        rw (eqb_of_ne (q' * (limit + 1) + suc x) (suc n) (omega (arith, laid.count, lap q q' e)))
          (laid.older x q' e le le');
  }

  -- The list of the next iteration goes into the ring.
  pub inserted :
      (q n : ℕ) (s : Iterations A) (l : A)
      → Laid list limit pos q n s
      → (s' : Iterations A) × (q' : ℕ) × (insert_stage_frame_list (suc n) l s ≡ some s')
        × Laid (with_list (suc n) l list) limit pos q' (suc n) s'
  inserted q n s l laid =
      let ring = with_list (suc n) l list in
      let before = later-Laid q n s l laid in
      let same : ring (suc n) ≡ l = rw (eqb_refl (suc n)) refl in
      let as_l = ap (λ x. insert_stage_frame_list (suc n) x s) (sym same) in
      elim (Bool-cases (s.head == limit + 1)) [
        | inl full ↦
            let (s', done, after) = insert-wrap ring limit pos q n s before (eq_of _ _ full) in
            (s', suc q, as_l ∙ done, after)
        | inr open_lap ↦
            let (s', done, after) =
              insert-inner ring limit pos q n s before (ne_lt _ _ before.within open_lap) in
            (s', q, as_l ∙ done, after)
      ]
