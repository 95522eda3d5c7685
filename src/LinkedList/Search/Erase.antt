-- ===== src/LinkedList/Search/Erase.antt =====
-- `removefromlinkedlist` of workshop/linked-list.c.
use comp.Base.{
  ℕ, suc, ◌+◌, ◌-◌, ◌≡◌, ◌≢◌, refl, sym, ap, ◌∙◌, [], ◌∷◌, ◌++◌, none, Bool, true, false, ◌==◌,
  if◌then◌else◌, length, length-append, All, arith, subst, ◌⊎◌, inl, inr,
}
use mathlib.Core.List.{append_assoc, append-nil}
use comp.Heap.{NodePtr, null, Heap, cell, update, returns, Cmd, ◌>>=◌, and_then, pure, ◌>>=◌}
use comp.Heap.Cells.{
  Cells, first, last, Apart, Chain, Chain-split, update_here, last-append, Distinct-middle, load_ok,
  free_ok,
}
use comp.LinkedList.{LinkedList, linked_list}
use comp.LinkedList.Shape.{
  list_of, Holds, isconsistent-list_of, first_null, rounds, rounds_lem, row_end, pred_suc,
}
use comp.LinkedList.Removal.{
  Unlinked, Unlinked-run, list_of-shrunk, apart_two, relink, relink-Holds, relink_freed, relink_cmd,
  behead-Holds, suc_within, suc_one,
}
use comp.LinkedList.Search.{erase, remove_loop, removefromlinkedlist}

-- No node of the row has the value.
abbrev pub Absent : ℕ → Cells → Type 0
Absent v = All (λ (c : NodePtr × ℕ). c.1 ≢ v)

abbrev found : LinkedList → Cmd (Bool × LinkedList)
found l = pure (true, l)

erase_only_lem :
    (h : Heap) (q v prev : ℕ)
    → Holds h ((q, v) ∷ [])
    → Unlinked ((erase (list_of ((q, v) ∷ [])) prev q (cell v null) >>= found) h) true q []
unfolding erase
erase_only_lem h q v prev held = record {
  after = update h q none;
  result = simp (free_ok h q null v held.0.0 held.0.1);
  holds = behead-Holds h q v [] held;
  freed = update_here h q none;
}

erase_head_lem :
    (h : Heap) (q v prev : ℕ) (x : NodePtr × ℕ) (xs : Cells)
    → Holds h ((q, v) ∷ x ∷ xs)
    → Unlinked ((erase (list_of ((q, v) ∷ x ∷ xs)) prev q (cell v x.0) >>= found) h) true q (x ∷ xs)
unfolding erase
erase_head_lem h q v prev x xs held =
    let same : (q == q) ≡ true = ground arith in
    record {
      after = update h q none;
      result = simp (
        suc_one (length xs),
        same,
        free_ok h q x.0 v held.0.0 held.0.1,
        pred_suc (suc (length xs)),
      );
      holds = behead-Holds h q v (x ∷ xs) held;
      freed = update_here h q none;
    }

last_other : (q b : ℕ) (ys : Cells) → q ≢ b → Apart q ys → q ≢ last b ys
last_other q b [] ne out = ne
last_other q b ((p, w) ∷ ys) ne out = last_other q p ys out.0 out.1

erased_foot :
    (xs : Cells) (c : NodePtr × ℕ) (q v : ℕ) (ys : Cells)
    → Apart q ys
    → (if q == last null (xs ++ c ∷ (q, v) ∷ ys) then c.0 else last null (xs ++ c ∷ (q, v) ∷ ys))
      ≡ last c.0 ys
erased_foot xs c q v [] out = ground (arith, last-append null xs (c ∷ (q, v) ∷ []))
erased_foot xs c q v (y ∷ ys) out =
    ground (arith, last-append null xs (c ∷ (q, v) ∷ y ∷ ys), last_other q y.0 ys out.0 out.1)

first_other :
    (xs : Cells) (c : NodePtr × ℕ) (q : ℕ) (ys : Cells)
    → Apart q xs
    → c.0 ≢ q
    → (q == first (xs ++ c ∷ ys) null) ≡ false
first_other [] c q ys out ne = ground (arith, ne)
first_other (x ∷ xs) c q ys out ne = ground (arith, out.0)

erase_behind_lem :
    (h : Heap) (xs : Cells) (p w q v : ℕ) (ys : Cells)
    → Holds h (xs ++ (p, w) ∷ (q, v) ∷ ys)
    → Unlinked
        ((erase (list_of (xs ++ (p, w) ∷ (q, v) ∷ ys)) p q (cell v (first ys null)) >>= found) h)
        true
        q
        (xs ++ (p, w) ∷ ys)
unfolding erase
erase_behind_lem h xs p w q v ys held =
    let (apart, beyond, rest) =
      Distinct-middle xs (q, v) ys (Distinct-middle xs (p, w) ((q, v) ∷ ys) held.1).2 in
    record {
      after = relink h xs p w q v ys held;
      result =
          simp
            (
              suc_within xs (p, w) (q, v) ys,
              first_other xs (p, w) q ((q, v) ∷ ys) apart (apart_two h xs p w q v ys held),
              erased_foot xs (p, w) q v ys beyond,
            )
            (ap (λ r. and_then r found)
                (relink_cmd h xs p w q v ys held (
                  pure (
                    linked_list (first (xs ++ (p, w) ∷ (q, v) ∷ ys) null) (last p ys)
                      (length (xs ++ (p, w) ∷ (q, v) ∷ ys) - 1))))
              ∙ ap (λ l. returns (true, l) (relink h xs p w q v ys held))
                  (list_of-shrunk xs (p, w) (q, v) ys (last p ys) refl));
      holds = relink-Holds h xs p w q v ys held;
      freed = relink_freed h xs p w q v ys held;
    }

erase_lem :
    (h : Heap) (xs : Cells) (q v : ℕ) (ys : Cells)
    → Holds h (xs ++ (q, v) ∷ ys)
    → (xs ≡ []) ⊎ ((zs : Cells) × ((c : NodePtr × ℕ) × (xs ≡ zs ++ c ∷ [])))
    → Unlinked
        ((erase (list_of (xs ++ (q, v) ∷ ys)) (last null xs) q (cell v (first ys null)) >>= found)
          h)
        true
        q
        (xs ++ ys)
erase_lem h xs q v [] held (inl e) =
    rw e (erase_only_lem h q v null (subst (λ k. Holds h (k ++ (q, v) ∷ [])) e held))
erase_lem h xs q v (y ∷ ys) held (inl e) =
    rw e (erase_head_lem h q v null y ys (subst (λ k. Holds h (k ++ (q, v) ∷ y ∷ ys)) e held))
erase_lem h xs q v ys held (inr (zs, ((p, w), e))) =
    let same = append_assoc zs ((p, w) ∷ []) ((q, v) ∷ ys) in
    rw (e, same, append_assoc zs ((p, w) ∷ []) ys, last-append null zs ((p, w) ∷ []))
      (erase_behind_lem h zs p w q v ys
        (subst (Holds h) (ap (λ k. k ++ (q, v) ∷ ys) e ∙ same) held))

module _ (h : Heap) (l : LinkedList) (value : ℕ) where
  -- Nodes without the value are passed.
  remove_loop_passes :
      (xs : Cells) (k : ℕ) (prev : NodePtr) (ys : Cells)
      → Chain h (xs ++ ys) null
      → Absent value xs
      → remove_loop (rounds xs k) l value prev (first (xs ++ ys) null) h
        ≡ remove_loop k l value (last prev xs) (first ys null) h
  unfolding remove_loop
  remove_loop_passes [] k prev ys c out = refl
  remove_loop_passes ((p, w) ∷ xs) k prev ys c out =
      let other : (w == value) ≡ false = ground (arith, out.0) in
      simp (first_null h p w (xs ++ ys) c, load_ok h p (first (xs ++ ys) null) w c.0 c.1, other)
        (remove_loop_passes xs k p ys c.2 out.1)

-- Removing a value erases the first node that has it: the node is freed, the others are the list, and the
-- result is 1.
pub removefromlinkedlist_lem :
    (h : Heap) (xs : Cells) (q v : ℕ) (ys : Cells)
    → Holds h (xs ++ (q, v) ∷ ys)
    → Absent v xs
    → Unlinked (removefromlinkedlist (list_of (xs ++ (q, v) ∷ ys)) v h) true q (xs ++ ys)
unfolding removefromlinkedlist
removefromlinkedlist_lem h xs q v ys held out =
    let row = xs ++ (q, v) ∷ ys in
    let c = (Chain-split h xs ((q, v) ∷ ys) null held.0).1 in
    let enough : length row + 1 ≡ rounds xs (suc (suc (length ys))) =
      omega (arith, length-append xs ((q, v) ∷ ys), rounds_lem xs (suc (suc (length ys)))) in
    let same : (v == v) ≡ true = ground arith in
    Unlinked-run (removefromlinkedlist (list_of row) v h)
      ((erase (list_of row) (last null xs) q (cell v (first ys null)) >>= found) h) true q
      (xs ++ ys)
      (simp (isconsistent-list_of h row held) (
        simp enough (
          simp
            (remove_loop_passes h (list_of row) v xs (suc (suc (length ys))) null ((q, v) ∷ ys)
              held.0 out)
            (simp (first_null h q v ys c, load_ok h q (first ys null) v c.0 c.1, same)))))
      (erase_lem h xs q v ys held (row_end xs))

-- A value that no node has is not found, and nothing changes.
removefromlinkedlist-Absent :
    (h : Heap) (xs : Cells) (v : ℕ)
    → Holds h xs
    → Absent v xs
    → removefromlinkedlist (list_of xs) v h ≡ returns (false, list_of xs) h
unfolding removefromlinkedlist
removefromlinkedlist-Absent h xs v held out =
    let enough : length xs + 1 ≡ rounds xs 1 = omega (arith, rounds_lem xs 1) in
    let e : xs ++ [] ≡ xs = append-nil xs in
    let passes =
      subst
        (λ k.
          remove_loop (rounds xs 1) (list_of xs) v null (first k null) h
          ≡ returns (false, list_of xs) h)
        e
        (remove_loop_passes h (list_of xs) v xs 1 null []
          (subst (λ k. Chain h k null) (sym e) held.0) out) in
    simp (isconsistent-list_of h xs held) (simp enough passes)
