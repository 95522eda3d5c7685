-- ===== src/LinkedList/Search/Traverse.antt =====
-- The functions of workshop/linked-list.c that go through the whole list and do not change it, or free it.
use comp.Base.{
  ℕ, ◌+◌, ◌≡◌, ◌≢◌, refl, ap, ◌∙◌, List, [], ◌∷◌, Option, none, some, true, false, ◌==◌, length,
  All, Bool-cases, arith, inl, inr,
}
use comp.Heap.{NodePtr, null, Heap, update, Run, returns}
use comp.Heap.Cells.{Cells, values, first, Apart, Chain, update_here, update_else, load_ok, free_ok}
use comp.LinkedList.Shape.{list_of, Holds, first_null, rounds, rounds_lem}
use comp.LinkedList.Removal.{behead-Holds}
use comp.LinkedList.Search.{
  index_loop, indexoflinkedlist, array_loop, toarraylinkedlist, free_loop, freelinkedlist,
}

abbrev pub shifted : ℕ → Option ℕ → Option ℕ
shifted i none = none
shifted i (some n) = some (i + n)

-- The position of the first occurrence.
unfoldable pub index_of : ℕ → List ℕ → Option ℕ
index_of v [] = none
index_of v (x ∷ xs) = elim (x == v) [ true ↦ some 0 | false ↦ shifted 1 (index_of v xs) ]

index_of-none : (v : ℕ) → index_of v [] ≡ none
unfolding index_of
index_of-none v = refl

index_of_here : (v x : ℕ) (xs : List ℕ) → (x == v) ≡ true → index_of v (x ∷ xs) ≡ some 0
unfolding index_of
index_of_here v x xs e = ground (arith, e)

index_of_later :
    (v x : ℕ) (xs : List ℕ) → (x == v) ≡ false → index_of v (x ∷ xs) ≡ shifted 1 (index_of v xs)
unfolding index_of
index_of_later v x xs e = ground (arith, e)

shifted_next : (i : ℕ) (o : Option ℕ) → shifted (i + 1) o ≡ shifted i (shifted 1 o)
shifted_next i none = refl
shifted_next i (some n) = ap some (omega arith)

shifted_zero : (o : Option ℕ) → shifted 0 o ≡ o
shifted_zero none = refl
shifted_zero (some n) = ap some (omega arith)

module _ (h : Heap) where
  index_loop_lem :
      (xs : Cells) (v i : ℕ)
      → Chain h xs null
      → index_loop (rounds xs 1) v i (first xs null) h
        ≡ returns (shifted i (index_of v (values xs))) h
  unfolding index_loop
  index_loop_lem [] v i c = simp (index_of-none v)
  index_loop_lem ((p, w) ∷ xs) v i c =
      simp (first_null h p w xs c, load_ok h p (first xs null) w c.0 c.1)
        (elim (Bool-cases (w == v)) [
          | inl e ↦
              simp (e, index_of_here v w (values xs) e) (ap (λ n. returns (some n) h) (omega arith))
          | inr e ↦
              simp (e, index_of_later v w (values xs) e)
                (index_loop_lem xs v (i + 1) c.2
                  ∙ ap (λ o. returns o h) (shifted_next i (index_of v (values xs))))
        ])

  -- The index is that of the first node with the value, and -1 if there is none.
  indexoflinkedlist_lem :
      (xs : Cells) (v : ℕ)
      → Holds h xs
      → indexoflinkedlist (list_of xs) v h ≡ returns (index_of v (values xs)) h
  unfolding indexoflinkedlist
  indexoflinkedlist_lem xs v held =
      let enough : length xs + 1 ≡ rounds xs 1 = omega (arith, rounds_lem xs 1) in
      simp enough (
        index_loop_lem xs v 0 held.0
        ∙ ap (λ o. returns o h) (shifted_zero (index_of v (values xs))))

  array_loop_lem :
      (xs : Cells)
      → Chain h xs null
      → array_loop (rounds xs 1) (length xs) (first xs null) h ≡ returns (values xs) h
  unfolding array_loop
  array_loop_lem [] c = refl
  array_loop_lem ((p, v) ∷ xs) c =
      simp (first_null h p v xs c, load_ok h p (first xs null) v c.0 c.1, array_loop_lem xs c.2)

  -- The array has the values in order, where malloc() gives an address for it.
  toarraylinkedlist_lem :
      (xs : Cells) (array : NodePtr)
      → array ≢ null
      → Holds h xs
      → toarraylinkedlist array (list_of xs) h ≡ returns (values xs) h
  unfolding toarraylinkedlist
  toarraylinkedlist_lem xs array ne held =
      let given : (array == null) ≡ false = ground (arith, ne) in
      let enough : length xs + 1 ≡ rounds xs 1 = omega (arith, rounds_lem xs 1) in
      simp (given, enough) (array_loop_lem xs held.0)

-- The run frees the nodes and leaves all else.
pub record Freed (h : Heap) (xs : Cells) (r : Run (Unit {0})) : Type 0 where
  pub after : Heap
  pub result : r ≡ returns tt after
  pub freed : All (λ (c : NodePtr × ℕ). after c.0 ≡ none) xs
  pub kept : (a : NodePtr) → Apart a xs → after a ≡ h a

free_loop_lem :
    (h : Heap) (xs : Cells) → Holds h xs → Freed h xs (free_loop (rounds xs 1) (first xs null) h)
unfolding free_loop
free_loop_lem h [] held = record { after = h; result = refl; freed = tt; kept = λ a out. refl }
free_loop_lem h ((p, v) ∷ xs) (c, d) =
    let f = free_loop_lem (update h p none) xs (behead-Holds h p v xs (c, d)) in
    record {
      after = f.after;
      result =
          simp
            (
              first_null h p v xs c,
              load_ok h p (first xs null) v c.0 c.1,
              free_ok h p (first xs null) v c.0 c.1,
            )
            f.result;
      freed = (f.kept p d.0 ∙ update_here h p none, f.freed);
      kept = λ a out. f.kept a out.1 ∙ update_else h p a none out.0;
    }

-- Freeing a list frees each of its nodes, once, and leaves the rest of the memory.
pub freelinkedlist_lem :
    (h : Heap) (xs : Cells) → Holds h xs → Freed h xs (freelinkedlist (list_of xs) h)
unfolding freelinkedlist
freelinkedlist_lem h xs held =
    let f = free_loop_lem h xs held in
    let enough : length xs + 1 ≡ rounds xs 1 = omega (arith, rounds_lem xs 1) in
    record { after = f.after; result = simp enough f.result; freed = f.freed; kept = f.kept }
