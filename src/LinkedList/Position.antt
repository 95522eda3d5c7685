-- ===== src/LinkedList/Position.antt =====
-- The functions of workshop/linked-list.c that read a position .
use comp.Base.{
  ℕ, zero, suc, ◌≡◌, ◌≤◌, refl, sym, ap, ◌∙◌, [], ◌∷◌, ◌++◌, Option, none, some, true, ltb, length,
  length-append, get_elem?, arith, subst, ◌⊎◌, inl, inr,
}
use comp.Heap.{NodePtr, null, Heap, returns, aborts, Cmd}
use comp.Heap.Cells.{Cells, values, first, Chain, Chain-split, load_ok}
use comp.LinkedList.{getatlinkedlist}
use comp.LinkedList.Shape.{list_of, Holds, advance_lem, first-not_null}

length_within :
    (xs : Cells) (p v : ℕ) (ys : Cells) → ltb (length xs) (length (xs ++ (p, v) ∷ ys)) ≡ true
length_within xs p v ys = ground (arith, length-append xs ((p, v) ∷ ys))

getat_here :
    (h : Heap) (xs : Cells) (p v : ℕ) (ys : Cells)
    → Chain h (xs ++ (p, v) ∷ ys) null
    → getatlinkedlist (list_of (xs ++ (p, v) ∷ ys)) (length xs) h ≡ returns v h
unfolding getatlinkedlist
getat_here h xs p v ys c =
    let d = (Chain-split h xs ((p, v) ∷ ys) null c).1 in
    simp (
      first-not_null h xs (p, v) ys c,
      length_within xs p v ys,
      advance_lem h xs p v ys c,
      load_ok h p (first ys null) v d.0 d.1,
    )

split_at :
    (xs : Cells) (i : ℕ)
    → (length xs ≤ i)
      ⊎ ((ys : Cells) × ((c : NodePtr × ℕ) × ((zs : Cells) × ((xs ≡ ys ++ c ∷ zs)
                × (length ys ≡ i)))))
split_at [] i = inl (omega arith)
split_at (x ∷ xs) zero = inr ([], (x, (xs, (refl, refl))))
split_at (x ∷ xs) (suc i) = elim (split_at xs i) [
  | inl le ↦ inl (omega (arith, le))
  | inr (ys, (c, (zs, (e, l)))) ↦ inr (x ∷ ys, (c, (zs, (ap (λ k. x ∷ k) e, ap suc l))))
]

-- What reading a position gives.
abbrev pub read : Option ℕ → Cmd ℕ
read none h = aborts
read (some v) h = returns v h

values_here :
    (xs : Cells) (p v : ℕ) (ys : Cells)
    → get_elem? (values (xs ++ (p, v) ∷ ys)) (length xs) ≡ some v
values_here [] p v ys = refl
values_here ((q, w) ∷ xs) p v ys = values_here xs p v ys

values_beyond : (xs : Cells) (i : ℕ) → length xs ≤ i → get_elem? (values xs) i ≡ none
values_beyond [] i le = refl
values_beyond ((p, v) ∷ xs) zero le = ground (arith, le)
values_beyond ((p, v) ∷ xs) (suc i) le = values_beyond xs i (omega (arith, le))

getat_beyond :
    (h : Heap) (xs : Cells) (i : ℕ) → length xs ≤ i → getatlinkedlist (list_of xs) i h ≡ aborts
unfolding getatlinkedlist
getat_beyond h xs i le = ground (arith, le)

-- Reading a position returns the value of the node there, and changes nothing; a position that is not
-- below the size fails an assertion.
getatlinkedlist_lem :
    (h : Heap) (xs : Cells) (i : ℕ)
    → Holds h xs
    → getatlinkedlist (list_of xs) i h ≡ read (get_elem? (values xs) i) h
getatlinkedlist_lem h xs i held = elim (split_at xs i) [
  | inl le ↦ getat_beyond h xs i le ∙ ap (λ o. read o h) (sym (values_beyond xs i le))
  | inr (ys, (c, (zs, (e, l)))) ↦
      subst (λ k. getatlinkedlist (list_of xs) k h ≡ read (get_elem? (values xs) k) h) l
        (subst
          (λ k.
            getatlinkedlist (list_of k) (length ys) h ≡ read (get_elem? (values k) (length ys)) h)
          (sym e)
          (getat_here h ys c.0 c.1 zs (subst (λ k. Chain h k null) e held.0)
            ∙ ap (λ o. read o h) (sym (values_here ys c.0 c.1 zs))))
]
