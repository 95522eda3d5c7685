-- ===== src/LinkedList/Remove.antt =====
-- `removeatlinkedlist` of workshop/linked-list.c.
use comp.Base.{
  ℕ, suc, ◌-◌, ◌≡◌, refl, ap, ◌∙◌, [], ◌∷◌, ◌++◌, none, true, ◌==◌, ltb, if◌then◌else◌, length,
  length-append, arith, subst, ◌⊎◌, inl, inr,
}
use mathlib.Core.List.{append_assoc}
use comp.Heap.{NodePtr, null, Heap, update, returns, pure}
use comp.Heap.Cells.{Cells, first, last, update_here, last-append, load_ok, free_ok}
use comp.LinkedList.{
  linked_list, remove_only, remove_head, remove_middle, unlink_at, removeatlinkedlist,
}
use comp.LinkedList.Shape.{
  list_of, Holds, isconsistent-list_of, advance_lem, row_end, pred_suc, suc_zero, length_snoc,
}
use comp.LinkedList.Removal.{
  Unlinked, Unlinked-run, list_of-shrunk, two, relink, relink-Holds, relink_freed, relink_cmd,
  behead-Holds, suc_within, suc_one,
}

remove_only_lem :
    (h : Heap) (q v : ℕ)
    → Holds h ((q, v) ∷ [])
    → Unlinked (remove_only (list_of ((q, v) ∷ [])) h) v q []
unfolding remove_only
remove_only_lem h q v held = record {
  after = update h q none;
  result = simp (load_ok h q null v held.0.0 held.0.1, free_ok h q null v held.0.0 held.0.1);
  holds = behead-Holds h q v [] held;
  freed = update_here h q none;
}

remove_head_lem :
    (h : Heap) (q v : ℕ) (x : NodePtr × ℕ) (xs : Cells)
    → Holds h ((q, v) ∷ x ∷ xs)
    → Unlinked (remove_head (list_of ((q, v) ∷ x ∷ xs)) h) v q (x ∷ xs)
unfolding remove_head
remove_head_lem h q v x xs held = record {
  after = update h q none;
  result = simp (
    load_ok h q x.0 v held.0.0 held.0.1,
    free_ok h q x.0 v held.0.0 held.0.1,
    pred_suc (suc (length xs)),
  );
  holds = behead-Holds h q v (x ∷ xs) held;
  freed = update_here h q none;
}

-- The foot that `remove_behind` leaves.
foot_left :
    (xs : Cells) (c d : NodePtr × ℕ) (ys : Cells)
    → (if suc (length xs) == length (xs ++ c ∷ d ∷ ys) - 1
        then c.0
        else last null (xs ++ c ∷ d ∷ ys))
      ≡ last c.0 ys
foot_left xs c d [] = ground (arith, length-append xs (c ∷ d ∷ []))
foot_left xs c d (y ∷ ys) =
    ground (arith, length-append xs (c ∷ d ∷ y ∷ ys), last-append null xs (c ∷ d ∷ y ∷ ys))

foot_asserted :
    (xs : Cells) (c d : NodePtr × ℕ) (ys : Cells)
    → (if suc (length xs) == length (xs ++ c ∷ d ∷ ys) - 1
        then d.0 == last null (xs ++ c ∷ d ∷ ys)
        else true)
      ≡ true
foot_asserted xs c d [] = ground (arith, last-append null xs (c ∷ d ∷ []))
foot_asserted xs c d (y ∷ ys) = ground (arith, length-append xs (c ∷ d ∷ y ∷ ys))

remove_middle_lem :
    (h : Heap) (xs : Cells) (p w q v : ℕ) (ys : Cells)
    → Holds h (xs ++ (p, w) ∷ (q, v) ∷ ys)
    → Unlinked
        (remove_middle (list_of (xs ++ (p, w) ∷ (q, v) ∷ ys)) (suc (length xs)) h)
        v
        q
        (xs ++ (p, w) ∷ ys)
unfolding remove_middle
remove_middle_lem h xs p w q v ys held =
    let d = two h xs p w q v ys held in
    record {
      after = relink h xs p w q v ys held;
      result =
          simp
            (
              pred_suc (length xs),
              advance_lem h xs p w ((q, v) ∷ ys) held.0,
              load_ok h p q w d.0 d.1,
              foot_asserted xs (p, w) (q, v) ys,
              load_ok h q (first ys null) v d.2.0 d.2.1,
              foot_left xs (p, w) (q, v) ys,
            )
            (relink_cmd h xs p w q v ys held (
                pure (
                  v,
                  linked_list (first (xs ++ (p, w) ∷ (q, v) ∷ ys) null) (last p ys)
                      (length (xs ++ (p, w) ∷ (q, v) ∷ ys) - 1),
                ))
              ∙ ap (λ l. returns (v, l) (relink h xs p w q v ys held))
                  (list_of-shrunk xs (p, w) (q, v) ys (last p ys) refl));
      holds = relink-Holds h xs p w q v ys held;
      freed = relink_freed h xs p w q v ys held;
    }

unlink_at_lem :
    (h : Heap) (xs : Cells) (q v : ℕ) (ys : Cells)
    → Holds h (xs ++ (q, v) ∷ ys)
    → (xs ≡ []) ⊎ ((zs : Cells) × ((c : NodePtr × ℕ) × (xs ≡ zs ++ c ∷ [])))
    → Unlinked (unlink_at (list_of (xs ++ (q, v) ∷ ys)) (length xs) h) v q (xs ++ ys)
unfolding unlink_at
unlink_at_lem h xs q v [] held (inl e) =
    rw e (remove_only_lem h q v (subst (λ k. Holds h (k ++ (q, v) ∷ [])) e held))
unlink_at_lem h xs q v (y ∷ ys) held (inl e) = rw e (
    Unlinked-run (unlink_at (list_of ((q, v) ∷ y ∷ ys)) 0 h)
      (remove_head (list_of ((q, v) ∷ y ∷ ys)) h) v q (y ∷ ys) (simp (suc_one (length ys)))
      (remove_head_lem h q v y ys (subst (λ k. Holds h (k ++ (q, v) ∷ y ∷ ys)) e held)))
unlink_at_lem h xs q v ys held (inr (zs, ((p, w), e))) =
    let same = append_assoc zs ((p, w) ∷ []) ((q, v) ∷ ys) in
    rw (e, same, append_assoc zs ((p, w) ∷ []) ys, length_snoc zs (p, w))
      (Unlinked-run (unlink_at (list_of (zs ++ (p, w) ∷ (q, v) ∷ ys)) (suc (length zs)) h)
        (remove_middle (list_of (zs ++ (p, w) ∷ (q, v) ∷ ys)) (suc (length zs)) h) v q
        (zs ++ (p, w) ∷ ys) (simp (suc_within zs (p, w) (q, v) ys, suc_zero (length zs)))
        (remove_middle_lem h zs p w q v ys
          (subst (Holds h) (ap (λ k. k ++ (q, v) ∷ ys) e ∙ same) held)))

-- Removing at an index below the size returns the value of the node there, frees it and leaves the list
-- of the other nodes.
pub removeatlinkedlist_lem :
    (h : Heap) (xs : Cells) (q v : ℕ) (ys : Cells)
    → Holds h (xs ++ (q, v) ∷ ys)
    → Unlinked (removeatlinkedlist (list_of (xs ++ (q, v) ∷ ys)) (length xs) h) v q (xs ++ ys)
unfolding removeatlinkedlist
removeatlinkedlist_lem h xs q v ys held =
    let within : ltb (length xs) (length (xs ++ (q, v) ∷ ys)) ≡ true =
      ground (arith, length-append xs ((q, v) ∷ ys)) in
    Unlinked-run (removeatlinkedlist (list_of (xs ++ (q, v) ∷ ys)) (length xs) h)
      (unlink_at (list_of (xs ++ (q, v) ∷ ys)) (length xs) h) v q (xs ++ ys)
      (simp (within, isconsistent-list_of h (xs ++ (q, v) ∷ ys) held))
      (unlink_at_lem h xs q v ys held (row_end xs))
