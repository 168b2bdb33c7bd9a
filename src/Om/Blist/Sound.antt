-- ===== src/Om/Blist/Sound.antt =====
-- What a run of bl_verify that passes shows.
use pracer.Base.{
  ℕ, zero, suc, ◌≤◌, ◌<◌, ◌≡◌, ◌≢◌, ◌∙◌, ap, true, false, ◌&&◌, some, [], ◌∷◌, arith, ◌==◌, ltb,
  inl, inr, Bool-cases, Option-cases, ◌⊎◌,
}
use pracer.Om.Label.{max_label}
use pracer.Om.Store.{Ptr, null, Node, Blist, Store, ok}
use pracer.Om.View.{load_node-ok, load_list-ok, load_node-none, load_node-null}
use pracer.Om.Chain.{Cells, last, cell, Seg, Above, IsBlist}
use pracer.Om.Chain.Insert.{Distinct-of_Sorted}
use pracer.Om.Blist.{bl_verify, verify_loop, node_good}

good-cell : (l : Ptr) (c : Node) → node_good l c ≡ true → c ≡ cell c.label c.next c.prev l
good-cell l c h = ground arith

-- What the rounds of verify_loop from node `p` on have read.
record Read (s : Store) (l p : Ptr) (c : Node) (tail : Ptr) : Type 0 where
  xs : Cells
  seg : Seg s.nodes l c.prev ((p, c.label) ∷ xs) null
  increasing : Above c.label xs
  end : last p xs ≡ tail

-- The successor of a node, as one round of verify_loop checks it.
abbrev Next : Store → Store → (fuel l p : ℕ) → Node → Blist → Type 0
Next s t fuel l p c hdr =
    (c.next ≡ null) × (p ≡ hdr.tail)
    ⊎ (m : Node) × (c.next ≢ null)
      × (s.nodes c.next ≡ some m)
      × (c.label < m.label)
      × (m.prev ≡ p)
      × (verify_loop fuel l c.next s ≡ ok tt t)

module _ (s t : Store) (l : Ptr) (hdr : Blist) (l_ok : l ≢ null) (at_l : s.lists l ≡ some hdr) where
  round-more :
      (fuel p : ℕ) (c m : Node)
      → p ≢ null
      → s.nodes p ≡ some c
      → node_good l c ≡ true
      → (c.next == null) ≡ false
      → s.nodes c.next ≡ some m
      → verify_loop (suc fuel) l p s ≡ ok tt t
      → (c.next ≢ null)
        × (c.label < m.label)
        × (m.prev ≡ p)
        × (verify_loop fuel l c.next s ≡ ok tt t)
  unfolding verify_loop
  round-more fuel p c m ne at good more e h =
      let next_ok : c.next ≢ null = ground arith in
      let reads = load_node-ok s p c ne at in
      elim (Bool-cases (c.next == p)) [
        | inl loop ↦ absurd (cc (simp (reads, good, more, loop) at h))
        | inr straight ↦ elim (Bool-cases (ltb c.label m.label && m.prev == p)) [
          | inl linked ↦ (
            next_ok,
            ground (arith, linked),
            ground (arith, linked),
            simp (reads, good, more, straight, load_node-ok s c.next m next_ok e, linked) at h,
          )
          | inr broken ↦ absurd (
              cc (
                simp (reads, good, more, straight, load_node-ok s c.next m next_ok e, broken) at h))
        ]
      ]

  round-Next :
      (fuel p : ℕ) (c : Node)
      → p ≢ null
      → s.nodes p ≡ some c
      → node_good l c ≡ true
      → verify_loop (suc fuel) l p s ≡ ok tt t
      → Next s t fuel l p c hdr
  unfolding verify_loop
  round-Next fuel p c ne at good h = elim (Bool-cases (c.next == null)) [
    | inl end ↦ inl (
      ground arith,
      ground
          (arith, simp (load_node-ok s p c ne at, good, end, load_list-ok s l hdr l_ok at_l) at h),
    )
    | inr more ↦ elim (Option-cases (s.nodes c.next)) [
      | inl e ↦ elim (Bool-cases (c.next == p)) [
        | inl loop ↦ absurd (cc (simp (load_node-ok s p c ne at, good, more, loop) at h))
        | inr straight ↦ absurd (
            cc (
              simp (load_node-ok s p c ne at, good, more, straight, load_node-none s c.next e) at
                h))
      ]
      | inr (m, e) ↦
          let (next_ok, lt, back, rest) = round-more fuel p c m ne at good more e h in
          inr (m, next_ok, e, lt, back, rest)
    ]
  ]

  round-good :
      (fuel p : ℕ) (c : Node)
      → s.nodes p ≡ some c
      → verify_loop (suc fuel) l p s ≡ ok tt t
      → (p ≢ null) × (node_good l c ≡ true)
  unfolding verify_loop
  round-good fuel p c at h = elim (Bool-cases (p == null)) [
    | inl e ↦ absurd (cc (rw (load_node-null s p (ground arith)) at h))
    | inr e ↦
        let ne : p ≢ null = ground arith in
        elim (Bool-cases (node_good l c)) [
          | inl good ↦ (ne, good)
          | inr bad ↦ absurd (cc (simp (load_node-ok s p c ne at, bad) at h))
        ]
  ]

  module _ (small : (a : Ptr) (c : Node) → s.nodes a ≡ some c → c.label ≤ max_label) where
    verify_loop-Read :
        (fuel p : ℕ) (c : Node)
        → s.nodes p ≡ some c
        → verify_loop fuel l p s ≡ ok tt t
        → Read s l p c hdr.tail
    unfolding verify_loop
    verify_loop-Read zero p c at h = absurd (cc)
    verify_loop-Read (suc fuel) p c at h =
        let (ne, good) = round-good fuel p c at h in
        let whole = good-cell l c good in
        elim (round-Next fuel p c ne at good h) [
          | inl (ended, e) ↦ record {
            xs = [];
            seg = (ne, at ∙ ap some (whole ∙ ap (λ k. cell c.label k c.prev l) ended), tt);
            increasing = tt;
            end = e;
          }
          | inr (m, next_ok, e, lt, back, rest) ↦
              let r = verify_loop-Read fuel c.next m e rest in
              record {
                xs = (c.next, m.label) ∷ r.xs;
                seg = (ne, at ∙ ap some whole, rw back at r.seg);
                increasing = (lt, small c.next m e, r.increasing);
                end = r.end;
              }
        ]

-- If bl_verify passes, the list is well-formed: from the list's own object the links in both
-- directions run through the same nodes, all in this list, with increasing labels. Labels are
-- label_t values, below 2 ^ 64.
pub bl_verify_sound :
    (s t : Store) (l fuel : ℕ) (hdr : Blist)
    → ((a : Ptr) (c : Node) → s.nodes a ≡ some c → c.label ≤ max_label)
    → l ≢ null
    → s.lists l ≡ some hdr
    → bl_verify fuel l s ≡ ok tt t
    → (xs : Cells) × IsBlist s l xs hdr.above hdr.heavy
unfolding bl_verify
bl_verify_sound s t l fuel hdr small l_ok at_l h = elim (Bool-cases (hdr.head == null)) [
  | inl empty ↦ elim (Bool-cases ((hdr.tail == null) && (hdr.heavy == 0))) [
    | inl good ↦ (
      [],
      record { ne_null = l_ok; header = ground arith; chain = tt; distinct = tt; sorted = tt },
    )
    | inr bad ↦ absurd (cc (simp (load_list-ok s l hdr l_ok at_l, empty, bad) at h))
  ]
  | inr more ↦ elim (Option-cases (s.nodes hdr.head)) [
    | inl e ↦
        absurd (cc (simp (load_list-ok s l hdr l_ok at_l, more, load_node-none s hdr.head e) at h))
    | inr (c, e) ↦ elim (Bool-cases (c.prev == null)) [
      | inl start ↦
          let r = verify_loop-Read s t l hdr l_ok at_l small fuel hdr.head c e (
            simp
              (
                load_list-ok s l hdr l_ok at_l,
                more,
                load_node-ok s hdr.head c (ground arith) e,
                start,
              )
              at h) in
          (
            (hdr.head, c.label) ∷ r.xs,
            record {
              ne_null = l_ok;
              header = ground (arith, r.end);
              chain = rw (let e' : c.prev ≡ null = ground arith in e') at r.seg;
              distinct =
                  Distinct-of_Sorted s.nodes l hdr.head c.label c.prev r.xs null r.seg r.increasing;
              sorted = (small hdr.head c e, r.increasing);
            },
          )
      | inr bad ↦ absurd (
          cc (
            simp
              (
                load_list-ok s l hdr l_ok at_l,
                more,
                load_node-ok s hdr.head c (ground arith) e,
                bad,
              )
              at h))
    ]
  ]
]
