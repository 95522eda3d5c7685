-- ===== src/LinkedList/Pop.antt =====
-- `poplinkedlist` of workshop/linked-list.c.
use comp.Base.{
  ℕ, suc, ◌+◌, ◌-◌, ◌≡◌, ◌≢◌, refl, sym, ap, ◌∙◌, [], ◌∷◌, ◌++◌, none, some, true, false, ◌==◌,
  length, length-append, arith,
}
use comp.Heap.{null, Heap, cell, update, returns}
use comp.Heap.Cells.{
  Cells, first, Apart, Chain, Chain-update, update_here, update_else, last-append, Distinct-middle,
  load_ok, set_next_ok, free_ok,
}
use comp.LinkedList.{linked_list, pop_at, pop_loop, poplinkedlist}
use comp.LinkedList.Shape.{
  list_of, Holds, isconsistent-list_of, first-not_null, first_null, rounds, rounds_lem,
}
use comp.LinkedList.Removal.{Unlinked, list_of-shrunk, two, apart_two, unlink_behind}

module _ (h : Heap) (p w q v : ℕ) (ne : p ≢ q) (c : Chain h ((p, w) ∷ (q, v) ∷ []) null) where
  popped : Heap
  popped = update (update h q none) p (some (cell w null))

  popped_here : popped p ≡ some (cell w null)
  unfolding popped
  popped_here = update_here (update h q none) p (some (cell w null))

  pop_at_end :
      (head n : ℕ)
      → pop_at (linked_list head q n) p (cell w q) h ≡ returns (linked_list head p (n - 1)) popped
  unfolding pop_at popped
  pop_at_end head n =
      let same : (q == q) ≡ true = ground arith in
      simp (
        same,
        free_ok h q null v c.2.0 c.2.1,
        set_next_ok (update h q none) p q w c.0 (update_else h q p none ne ∙ c.1) null,
      )

  pop_loop_end :
      (k head n : ℕ)
      → pop_loop (suc (suc k)) (linked_list head q n) p h
        ≡ returns (linked_list head p (n - 1)) popped
  unfolding pop_loop
  pop_loop_end k head n =
      let start : (p == null) ≡ false = ground (arith, c.0) in
      simp
        (start, load_ok h p q w c.0 c.1, pop_at_end head n, load_ok popped p null w c.0 popped_here)

  pop_at_before :
      (head n a b r : ℕ)
      → r ≢ q
      → pop_at (linked_list head q n) a (cell b r) h ≡ returns (linked_list head q n) h
  unfolding pop_at
  pop_at_before head n a b r out = let other : (r == q) ≡ false = ground (arith, out) in simp other

  first_other : (xs : Cells) → Apart q xs → first (xs ++ (p, w) ∷ (q, v) ∷ []) null ≢ q
  first_other [] out = ne
  first_other (x ∷ xs) out = λ e. out.0 (sym e)

  pop_loop_lem :
      (xs : Cells) (k head n : ℕ)
      → Chain h (xs ++ (p, w) ∷ (q, v) ∷ []) null
      → Apart q xs
      → pop_loop
          (rounds xs (suc (suc k)))
          (linked_list head q n)
          (first (xs ++ (p, w) ∷ (q, v) ∷ []) null)
          h
        ≡ returns (linked_list head p (n - 1)) popped
  unfolding pop_loop
  pop_loop_lem [] k head n d out = pop_loop_end k head n
  pop_loop_lem ((a, b) ∷ xs) k head n d out =
      let r = first (xs ++ (p, w) ∷ (q, v) ∷ []) null in
      simp
        (
          first_null h a b (xs ++ (p, w) ∷ (q, v) ∷ []) d,
          load_ok h a r b d.0 d.1,
          pop_at_before head n a b r (first_other xs out.1),
        )
        (pop_loop_lem xs k head n d.2 out.1)

-- Popping from a list of two nodes or more returns the value of the last node, frees it and leaves the
-- list of the other nodes.
pub poplinkedlist_lem :
    (h : Heap) (xs : Cells) (p w q v : ℕ)
    → Holds h (xs ++ (p, w) ∷ (q, v) ∷ [])
    → Unlinked (poplinkedlist (list_of (xs ++ (p, w) ∷ (q, v) ∷ [])) h) v q (xs ++ (p, w) ∷ [])
unfolding poplinkedlist popped
poplinkedlist_lem h xs p w q v held =
    let row = xs ++ (p, w) ∷ (q, v) ∷ [] in
    let c = two h xs p w q v [] held in
    let ne = apart_two h xs p w q v [] held in
    let apart =
      (Distinct-middle xs (q, v) [] (Distinct-middle xs (p, w) ((q, v) ∷ []) held.1).2).0 in
    let after = popped h p w q v ne c in
    let enough : length row + 1 ≡ rounds xs 3 =
      omega (arith, length-append xs ((p, w) ∷ (q, v) ∷ []), rounds_lem xs 3) in
    record {
      after = after;
      result = simp (isconsistent-list_of h row held) (
          simp
            (
              first-not_null h xs (p, w) ((q, v) ∷ []) held.0,
              last-append null xs ((p, w) ∷ (q, v) ∷ []),
              load_ok h q null v c.2.0 c.2.1,
              enough,
            )
            (simp (pop_loop_lem h p w q v ne c xs 1 (first row null) (length row) held.0 apart)
              (ap (λ l. returns (v, l) after) (list_of-shrunk xs (p, w) (q, v) [] p refl))));
      holds =
          unlink_behind h after xs p w q v []
            (λ zs stop a b chain.
              Chain-update (update h q none) p (some (cell w null)) zs stop a
                (Chain-update h q none zs stop b chain))
            (popped_here h p w q v ne c) held;
      freed =
          update_else (update h q none) p q (some (cell w null)) (λ e. ne (sym e))
          ∙ update_here h q none;
    }

-- Popping from a list of one node returns its value and leaves the node in the list.
pub poplinkedlist_only :
    (h : Heap) (q v : ℕ)
    → Holds h ((q, v) ∷ [])
    → poplinkedlist (list_of ((q, v) ∷ [])) h ≡ returns (v, list_of ((q, v) ∷ [])) h
unfolding poplinkedlist
poplinkedlist_only h q v held =
    let c = held.0 in
    let other : (null == q) ≡ false = ground (arith, c.0) in
    simp (isconsistent-list_of h ((q, v) ∷ []) held)
      (simp (first_null h q v [] c, load_ok h q null v c.0 c.1, other))
