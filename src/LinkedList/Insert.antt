-- ===== src/LinkedList/Insert.antt =====
-- The functions of workshop/linked-list.c that read a position and that link in a node.
use comp.Base.{
  ℕ, suc, ◌+◌, ◌≡◌, ◌≢◌, refl, sym, ap, ◌∙◌, [], ◌∷◌, ◌++◌, none, some, true, leb, length,
  length-append, All-split, arith, subst, ◌⊎◌, inl, inr,
}
use mathlib.Core.List.{append_assoc}
use comp.Heap.{NodePtr, null, Heap, cell, update, returns}
use comp.Heap.Cells.{
  Cells, last, Apart, Chain-split, Chain-update, update_here, update_else, last-append, load_ok,
  set_next_ok,
}
use comp.LinkedList.{addlinkedlist, link_foot, link_head, link_middle, link_at}
use comp.LinkedList.Shape.{
  list_of, Holds, isconsistent-list_of, advance_lem, Linked, row_end, list_of-grown, list_eq,
  pred_suc, length_snoc, at_end, before_end, suc_zero, Linked-run,
}
use comp.LinkedList.Growth.{link_after, link_foot_lem, new_node_ok, new_node-Holds, not_empty}

-- The new node becomes the head.
link_head_lem :
    (h : Heap) (fresh v : ℕ) (ne : fresh ≢ null) (x : NodePtr × ℕ) (xs : Cells)
    → h fresh ≡ some (cell v null)
    → Apart fresh (x ∷ xs)
    → Holds h (x ∷ xs)
    → Linked (link_head (list_of (x ∷ xs)) fresh h) ((fresh, v) ∷ x ∷ xs)
unfolding link_head
link_head_lem h fresh v ne x xs e out held = record {
  after = update h fresh (some (cell v x.0));
  result = simp (set_next_ok h fresh null v ne e x.0) (
      ap (λ l. returns l (update h fresh (some (cell v x.0))))
        (list_eq fresh (last x.0 xs) (suc (length xs) + 1) fresh (last x.0 xs)
          (suc (suc (length xs))) refl refl (omega arith)));
  holds = (
    (
      ne,
      update_here h fresh (some (cell v x.0)),
      Chain-update h fresh (some (cell v x.0)) (x ∷ xs) null out held.0,
    ),
    (out, held.1),
  );
}

link_middle_lem :
    (h : Heap) (fresh v : ℕ) (ne : fresh ≢ null) (xs : Cells) (p w : ℕ) (y : NodePtr × ℕ)
    (ys : Cells)
    → h fresh ≡ some (cell v null)
    → Apart fresh (xs ++ (p, w) ∷ y ∷ ys)
    → Holds h (xs ++ (p, w) ∷ y ∷ ys)
    → Linked
        (link_middle (list_of (xs ++ (p, w) ∷ y ∷ ys)) (suc (length xs)) fresh h)
        (xs ++ (p, w) ∷ (fresh, v) ∷ y ∷ ys)
unfolding link_middle
link_middle_lem h fresh v ne xs p w y ys e out held =
    let d = (Chain-split h xs ((p, w) ∷ y ∷ ys) null held.0).1 in
    let h' = update h fresh (some (cell v y.0)) in
    let others = All-split (λ (x : NodePtr × ℕ). fresh ≢ x.0) xs ((p, w) ∷ y ∷ ys) out in
    let here : h' p ≡ some (cell w y.0) =
      update_else h fresh p (some (cell v y.0)) (λ k. others.1.0 (sym k)) ∙ d.1 in
    record {
      after = update h' p (some (cell w fresh));
      result =
          simp
            (
              pred_suc (length xs),
              advance_lem h xs p w (y ∷ ys) held.0,
              load_ok h p y.0 w d.0 d.1,
              set_next_ok h fresh null v ne e y.0,
              set_next_ok h' p y.0 w d.0 here fresh,
            )
            (ap (λ l. returns l (update h' p (some (cell w fresh))))
              (list_of-grown xs (p, w) (fresh, v) (y ∷ ys) (last null (xs ++ (p, w) ∷ y ∷ ys))
                (last-append null xs ((p, w) ∷ y ∷ ys))));
      holds =
          link_after h' xs p w (y ∷ ys) fresh v ne (update_here h fresh (some (cell v y.0))) out (
            Chain-update h fresh (some (cell v y.0)) (xs ++ (p, w) ∷ y ∷ ys) null out held.0,
            held.1,
          );
    }

module _ (h : Heap) (fresh v : ℕ) (ne : fresh ≢ null) (e : h fresh ≡ some (cell v null)) where
  link_at_behind :
      (xs : Cells) (c : NodePtr × ℕ) (ys : Cells)
      → Apart fresh (xs ++ c ∷ ys)
      → Holds h (xs ++ c ∷ ys)
      → Linked
          (link_at fresh (list_of (xs ++ c ∷ ys)) (suc (length xs)) h)
          (xs ++ c ∷ (fresh, v) ∷ ys)
  unfolding link_at
  link_at_behind xs (p, w) [] out held =
      Linked-run (link_at fresh (list_of (xs ++ (p, w) ∷ [])) (suc (length xs)) h)
        (link_foot (list_of (xs ++ (p, w) ∷ [])) fresh h) (xs ++ (p, w) ∷ (fresh, v) ∷ [])
        (simp (not_empty xs (p, w) [], suc_zero (length xs), at_end xs (p, w)))
        (link_foot_lem h xs p w fresh v ne e out held)
  link_at_behind xs (p, w) (y ∷ ys) out held =
      Linked-run (link_at fresh (list_of (xs ++ (p, w) ∷ y ∷ ys)) (suc (length xs)) h)
        (link_middle (list_of (xs ++ (p, w) ∷ y ∷ ys)) (suc (length xs)) fresh h)
        (xs ++ (p, w) ∷ (fresh, v) ∷ y ∷ ys)
        (simp (not_empty xs (p, w) (y ∷ ys), suc_zero (length xs), before_end xs (p, w) y ys))
        (link_middle_lem h fresh v ne xs p w y ys e out held)

  link_at_lem :
      (xs ys : Cells)
      → Apart fresh (xs ++ ys)
      → Holds h (xs ++ ys)
      → (xs ≡ []) ⊎ ((zs : Cells) × ((c : NodePtr × ℕ) × (xs ≡ zs ++ c ∷ [])))
      → Linked (link_at fresh (list_of (xs ++ ys)) (length xs) h) (xs ++ (fresh, v) ∷ ys)
  unfolding link_at
  link_at_lem xs [] out held (inl i) =
      rw i record { after = h; result = refl; holds = ((ne, e, tt), (tt, tt)) }
  link_at_lem xs (y ∷ ys) out held (inl i) =
      let linked =
        link_head_lem h fresh v ne y ys e (subst (λ k. Apart fresh (k ++ y ∷ ys)) i out)
          (subst (λ k. Holds h (k ++ y ∷ ys)) i held) in
      rw i (
        Linked-run (link_at fresh (list_of (y ∷ ys)) 0 h) (link_head (list_of (y ∷ ys)) fresh h)
          ((fresh, v) ∷ y ∷ ys) (simp (suc_zero (length ys))) linked)
  link_at_lem xs ys out held (inr (zs, (c, i))) =
      let same = (append_assoc zs (c ∷ []) ys) in
      rw (i, same, append_assoc zs (c ∷ []) ((fresh, v) ∷ ys), length_snoc zs c)
        (link_at_behind zs c ys (subst (Apart fresh) (ap (λ k. k ++ ys) i ∙ same) out)
          (subst (Holds h) (ap (λ k. k ++ ys) i ∙ same) held))

module _ (h : Heap) (fresh v : ℕ) (ne : fresh ≢ null) (free : h fresh ≡ none) where
  -- Adding at an index up to the size links a node with the value between the nodes before and after it,
  -- where malloc() gives an unused address.
  pub addlinkedlist_lem :
      (xs ys : Cells)
      → Holds h (xs ++ ys)
      → Linked (addlinkedlist fresh (list_of (xs ++ ys)) (length xs) v h) (xs ++ (fresh, v) ∷ ys)
  unfolding addlinkedlist
  addlinkedlist_lem xs ys held =
      let (out, kept) = new_node-Holds h fresh v ne free (xs ++ ys) held in
      let linked =
        link_at_lem (update h fresh (some (cell v null))) fresh v ne
          (update_here h fresh (some (cell v null))) xs ys out kept (row_end xs) in
      let within : leb (length xs) (length (xs ++ ys)) ≡ true =
        ground (arith, length-append xs ys) in
      Linked-run (addlinkedlist fresh (list_of (xs ++ ys)) (length xs) v h)
        (link_at fresh (list_of (xs ++ ys)) (length xs) (update h fresh (some (cell v null))))
        (xs ++ (fresh, v) ∷ ys)
        (simp (within, isconsistent-list_of h (xs ++ ys) held, new_node_ok h fresh v ne)) linked
