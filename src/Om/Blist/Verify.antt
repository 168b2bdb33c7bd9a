-- ===== src/Om/Blist/Verify.antt =====
-- bl_verify, bl_size and bl_precedes against the list of nodes.
use pracer.Base.{
  ℕ, zero, suc, ◌+◌, ◌<◌, ◌≡◌, ◌≢◌, ◌∙◌, refl, ap, some, [], ◌∷◌, arith, lt→ltb, eqb_of_ne,
  eqb_refl, length,
}
use pracer.Om.Store.{Ptr, null, Blist, Store, ok}
use pracer.Om.View.{load_node-ok, load_list-ok}
use pracer.Om.Chain.{Cells, first, last, Distinct, Seg, Above, IsBlist}
use pracer.Om.Blist.{bl_verify, verify_loop, bl_size, size_loop}

module _ (s : Store) (l : Ptr) where
  size_loop-length :
      (fuel count prev : ℕ) (xs : Cells)
      → Seg s.nodes l prev xs null
      → length xs < fuel
      → size_loop fuel (first xs null) count s ≡ ok (count + length xs) s
  unfolding size_loop
  size_loop-length zero count prev xs seg more = absurd (omega arith)
  size_loop-length (suc fuel) count prev [] seg more = ap (λ n. ok n s) (omega arith)
  size_loop-length (suc fuel) count prev ((p, lab) ∷ xs) (ne, at, seg) more =
      rw (eqb_of_ne p null ne, load_node-ok s p _ ne at)
        (size_loop-length fuel (count + 1) p xs seg (omega arith) ∙ ap (λ n. ok n s) (omega arith))

  module _ (hdr : Blist) (l_ok : l ≢ null) (at_l : s.lists l ≡ some hdr) where
    verify_loop-ok :
        (fuel p lab prev : ℕ) (xs : Cells)
        → Seg s.nodes l prev ((p, lab) ∷ xs) null
        → Distinct ((p, lab) ∷ xs)
        → Above lab xs
        → last p xs ≡ hdr.tail
        → length xs < fuel
        → verify_loop fuel l p s ≡ ok tt s
    unfolding verify_loop
    verify_loop-ok zero p lab prev xs seg d a e more = absurd (omega arith)
    verify_loop-ok (suc fuel) p lab prev [] (ne, at, seg) d a e more =
        simp (load_node-ok s p _ ne at, eqb_refl, load_list-ok s l hdr l_ok at_l, ← e)
    verify_loop-ok (suc fuel) p lab prev ((q, lq) ∷ xs) (ne, at, seg) d a e more =
        simp
          (
            load_node-ok s p _ ne at,
            eqb_refl,
            load_node-ok s q _ seg.0 seg.1,
            eqb_of_ne q null seg.0,
            eqb_of_ne q p (ground arith),
            lt→ltb lab lq a.0,
          )
          (verify_loop-ok fuel q lq p xs seg d.1 a.2 e (omega arith))

-- bl_size counts the nodes, on fuel above their number.
pub bl_size-length :
    (s : Store) (l above heavy fuel : ℕ) (xs : Cells)
    → IsBlist s l xs above heavy
    → length xs < fuel
    → bl_size fuel l s ≡ ok (length xs) s
unfolding bl_size
bl_size-length s l above heavy fuel xs is more =
    rw (load_list-ok s l _ is.ne_null is.header)
      (size_loop-length s l fuel 0 null xs is.chain more ∙ ap (λ n. ok n s) (omega arith))

-- bl_verify passes on every well-formed list that is not empty.
pub bl_verify-ok :
    (s : Store) (l p lab above heavy fuel : ℕ) (xs : Cells)
    → IsBlist s l ((p, lab) ∷ xs) above heavy
    → length xs < fuel
    → bl_verify fuel l s ≡ ok tt s
unfolding bl_verify
bl_verify-ok s l p lab above heavy fuel xs is more =
    simp
      (
        load_list-ok s l _ is.ne_null is.header,
        eqb_of_ne p null is.chain.0,
        load_node-ok s p _ is.chain.0 is.chain.1,
      )
      (verify_loop-ok s l _ is.ne_null is.header fuel p lab null xs is.chain is.distinct is.sorted.1
        refl more)
