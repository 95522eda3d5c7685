-- ===== src/LinkedList/Growth.antt =====
-- The functions of workshop/linked-list.c that read a position and that link in a node.
use comp.Base.{
  ℕ, ◌≡◌, ◌≢◌, refl, sym, ap, ◌∙◌, [], ◌∷◌, ◌++◌, none, some, false, ◌==◌, length, length-append,
  All-split, arith, subst, ◌⊎◌, inl, inr,
}
use mathlib.Core.List.{append_assoc}
use comp.Heap.{NodePtr, null, Heap, cell, update, returns, new_node}
use comp.Heap.Cells.{
  Cells, first, Apart, Chain-split, Chain-append, Chain-Apart, Chain-update, update_here,
  update_else, last-append, Distinct-insert, Distinct-middle, set_next_ok,
}
use comp.LinkedList.{appendlinkedlist, link_foot}
use comp.LinkedList.Shape.{list_of, Holds, isconsistent-list_of, Linked, row_end, list_of-grown}

-- The node `fresh` is linked behind the node `p`.
pub link_after :
    (h : Heap) (xs : Cells) (p w : ℕ) (ys : Cells) (fresh v : ℕ)
    → fresh ≢ null
    → h fresh ≡ some (cell v (first ys null))
    → Apart fresh (xs ++ (p, w) ∷ ys)
    → Holds h (xs ++ (p, w) ∷ ys)
    → Holds (update h p (some (cell w fresh))) (xs ++ (p, w) ∷ (fresh, v) ∷ ys)
link_after h xs p w ys fresh v ne e out (c, d) =
    let (before, others) = All-split (λ (x : NodePtr × ℕ). fresh ≢ x.0) xs ((p, w) ∷ ys) out in
    let (apart, beyond, rest) = Distinct-middle xs (p, w) ys d in
    let (left, right) = Chain-split h xs ((p, w) ∷ ys) null c in
    let h' = update h p (some (cell w fresh)) in
    (
      Chain-append h' xs ((p, w) ∷ (fresh, v) ∷ ys) null
          (Chain-update h p (some (cell w fresh)) xs p apart left)
          (
            right.0,
            update_here h p (some (cell w fresh)),
            (
              ne,
              update_else h p fresh (some (cell w fresh)) others.0 ∙ e,
              Chain-update h p (some (cell w fresh)) ys null beyond right.2,
            ),
          ),
      Distinct-insert xs (p, w) ((fresh, v) ∷ ys) apart ((λ k. others.0 (sym k)), beyond)
          (Distinct-insert xs (fresh, v) ys before others.1 rest),
    )

pub link_foot_lem :
    (h : Heap) (xs : Cells) (p w : ℕ) (fresh v : ℕ)
    → fresh ≢ null
    → h fresh ≡ some (cell v null)
    → Apart fresh (xs ++ (p, w) ∷ [])
    → Holds h (xs ++ (p, w) ∷ [])
    → Linked (link_foot (list_of (xs ++ (p, w) ∷ [])) fresh h) (xs ++ (p, w) ∷ (fresh, v) ∷ [])
unfolding link_foot
link_foot_lem h xs p w fresh v ne e out held =
    let d = (Chain-split h xs ((p, w) ∷ []) null held.0).1 in
    record {
      after = update h p (some (cell w fresh));
      result =
          simp (last-append null xs ((p, w) ∷ []), set_next_ok h p null w d.0 d.1 fresh)
            (ap (λ l. returns l (update h p (some (cell w fresh))))
              (list_of-grown xs (p, w) (fresh, v) [] fresh refl));
      holds = link_after h xs p w [] fresh v ne e out held;
    }

module _ (h : Heap) (fresh v : ℕ) (ne : fresh ≢ null) where
  pub new_node_ok : new_node fresh v h ≡ returns tt (update h fresh (some (cell v null)))
  unfolding new_node
  new_node_ok = ground (arith, ne)

  -- Where malloc() gives an address that is not in use, the list stays as it is.
  pub new_node-Holds :
      h fresh ≡ none
      → (xs : Cells) → Holds h xs
      → Apart fresh xs × Holds (update h fresh (some (cell v null))) xs
  new_node-Holds e xs (c, d) =
      let out = Chain-Apart h fresh xs null e c in
      (out, (Chain-update h fresh (some (cell v null)) xs null out c, d))

  new_node_alone : Holds (update h fresh (some (cell v null))) ((fresh, v) ∷ [])
  new_node_alone = ((ne, update_here h fresh (some (cell v null)), tt), (tt, tt))

pub not_empty : (xs : Cells) (c : NodePtr × ℕ) (ys : Cells) → (length (xs ++ c ∷ ys) == 0) ≡ false
not_empty xs c ys = ground (arith, length-append xs (c ∷ ys))

module _ (h : Heap) (fresh v : ℕ) (ne : fresh ≢ null) (free : h fresh ≡ none) where
  append_behind :
      (xs : Cells) (p w : ℕ)
      → Holds h (xs ++ (p, w) ∷ [])
      → Linked
          (appendlinkedlist fresh (list_of (xs ++ (p, w) ∷ [])) v h)
          (xs ++ (p, w) ∷ (fresh, v) ∷ [])
  unfolding appendlinkedlist
  append_behind xs p w held =
      let (out, kept) = new_node-Holds h fresh v ne free (xs ++ (p, w) ∷ []) held in
      let linked =
        link_foot_lem (update h fresh (some (cell v null))) xs p w fresh v ne
          (update_here h fresh (some (cell v null))) out kept in
      record {
        after = linked.after;
        result =
            simp (isconsistent-list_of h (xs ++ (p, w) ∷ []) held, new_node_ok h fresh v ne)
              (simp (not_empty xs (p, w) []) linked.result);
        holds = linked.holds;
      }

  append_to :
      (xs : Cells)
      → Holds h xs
      → (xs ≡ []) ⊎ ((ys : Cells) × ((c : NodePtr × ℕ) × (xs ≡ ys ++ c ∷ [])))
      → Linked (appendlinkedlist fresh (list_of xs) v h) (xs ++ (fresh, v) ∷ [])
  unfolding appendlinkedlist
  append_to xs held (inl e) = rw e record {
    after = update h fresh (some (cell v null));
    result = simp (new_node_ok h fresh v ne);
    holds = new_node_alone h fresh v ne;
  }
  append_to xs held (inr (ys, ((p, w), e))) =
      subst (λ zs. Linked (appendlinkedlist fresh (list_of zs) v h) (zs ++ (fresh, v) ∷ [])) (sym e)
        (subst (Linked (appendlinkedlist fresh (list_of (ys ++ (p, w) ∷ [])) v h))
          (sym (append_assoc ys ((p, w) ∷ []) ((fresh, v) ∷ [])))
          (append_behind ys p w (subst (Holds h) e held)))

  -- Appending links a node with the value behind the others, where malloc() gives an unused address.
  appendlinkedlist_lem :
      (xs : Cells)
      → Holds h xs
      → Linked (appendlinkedlist fresh (list_of xs) v h) (xs ++ (fresh, v) ∷ [])
  appendlinkedlist_lem xs held = append_to xs held (row_end xs)
