-- ===== src/LinkedList/Removal.antt =====
-- A node that is taken out of a list of workshop/linked-list.c.
use comp.Base.{
  ℕ, suc, ◌-◌, ◌≡◌, ◌≢◌, sym, ◌∙◌, ◌∷◌, ◌++◌, none, some, false, ◌==◌, length, length-append, arith,
}
use comp.Heap.{NodePtr, null, Heap, cell, update, Run, returns, Cmd, set_next, free, ◌>>◌}
use comp.Heap.Cells.{
  Cells, first, last, Apart, Chain, Chain-split, Chain-append, Chain-update, update_here,
  update_else, last-append, Distinct-insert, Distinct-middle, set_next_ok, free_ok,
}
use comp.LinkedList.{LinkedList, linked_list}
use comp.LinkedList.Shape.{list_of, Holds, first-append, list_eq}

-- The run returns `a` and the list with the nodes `xs`, which the memory then holds; the node `q` is freed.
pub record Unlinked {A : Type 0} (r : Run (A × LinkedList)) (a : A) (q : NodePtr) (xs : Cells)
    : Type 0 where
  pub after : Heap
  pub result : r ≡ returns (a, list_of xs) after
  pub holds : Holds after xs
  pub freed : after q ≡ none

pub Unlinked-run :
    {A : Type 0} (r r' : Run (A × LinkedList)) (a : A) (q : NodePtr) (xs : Cells)
    → r ≡ r'
    → Unlinked r' a q xs
    → Unlinked r a q xs
Unlinked-run r r' a q xs e u = record {
  after = u.after;
  result = e ∙ u.result;
  holds = u.holds;
  freed = u.freed;
}

-- The struct once the node behind another is taken out.
pub list_of-shrunk :
    (xs : Cells) (c d : NodePtr × ℕ) (ys : Cells) (foot : NodePtr)
    → foot ≡ last c.0 ys
    → linked_list (first (xs ++ c ∷ d ∷ ys) null) foot (length (xs ++ c ∷ d ∷ ys) - 1)
      ≡ list_of (xs ++ c ∷ ys)
list_of-shrunk xs c d ys foot e =
    list_eq (first (xs ++ c ∷ d ∷ ys) null) foot (length (xs ++ c ∷ d ∷ ys) - 1)
      (first (xs ++ c ∷ ys) null) (last null (xs ++ c ∷ ys)) (length (xs ++ c ∷ ys))
      (first-append xs c (d ∷ ys) ys) (e ∙ sym (last-append null xs (c ∷ ys)))
      (omega (arith, length-append xs (c ∷ d ∷ ys), length-append xs (c ∷ ys)))

-- A memory in which the node `p` leads past the node `q` behind it, and that agrees elsewhere.
pub unlink_behind :
    (h h' : Heap) (xs : Cells) (p w q v : ℕ) (ys : Cells)
    → ((zs : Cells) (stop : NodePtr) → Apart p zs → Apart q zs → Chain h zs stop → Chain h' zs stop)
    → h' p ≡ some (cell w (first ys null))
    → Holds h (xs ++ (p, w) ∷ (q, v) ∷ ys)
    → Holds h' (xs ++ (p, w) ∷ ys)
unlink_behind h h' xs p w q v ys keep e (c, d) =
    let (left, right) = Chain-split h xs ((p, w) ∷ (q, v) ∷ ys) null c in
    let (apart, beyond, rest) = Distinct-middle xs (p, w) ((q, v) ∷ ys) d in
    let (apart', beyond', rest') = Distinct-middle xs (q, v) ys rest in
    (
      Chain-append h' xs ((p, w) ∷ ys) null (keep xs p apart apart' left)
          (right.0, e, keep ys null beyond.1 beyond' right.2.2),
      Distinct-insert xs (p, w) ys apart beyond.1 rest',
    )

-- Its commands: the node before is linked past the node, which is freed.
module _ (h : Heap) (xs : Cells) (p w q v : ℕ) (ys : Cells)
    (held : Holds h (xs ++ (p, w) ∷ (q, v) ∷ ys)) where
  pub two : Chain h ((p, w) ∷ (q, v) ∷ ys) null
  two = (Chain-split h xs ((p, w) ∷ (q, v) ∷ ys) null held.0).1

  pub apart_two : p ≢ q
  apart_two = (Distinct-middle xs (p, w) ((q, v) ∷ ys) held.1).1.0

  pub relink : Heap
  relink = update (update h p (some (cell w (first ys null)))) q none

  pub relink-Holds : Holds relink (xs ++ (p, w) ∷ ys)
  unfolding relink
  relink-Holds =
      unlink_behind h relink xs p w q v ys
        (λ zs stop a b c.
          Chain-update (update h p (some (cell w (first ys null)))) q none zs stop b
            (Chain-update h p (some (cell w (first ys null))) zs stop a c))
        (update_else (update h p (some (cell w (first ys null)))) q p none apart_two
          ∙ update_here h p (some (cell w (first ys null))))
        held

  pub relink_freed : relink q ≡ none
  unfolding relink
  relink_freed = update_here (update h p (some (cell w (first ys null)))) q none

  pub relink_cmd :
      {A : Type 0} (k : Cmd A) → (set_next p (first ys null) >> (free q >> k)) h ≡ k relink
  unfolding relink
  relink_cmd k = simp (
    set_next_ok h p q w two.0 two.1 (first ys null),
    free_ok (update h p (some (cell w (first ys null)))) q (first ys null) v two.2.0
        (update_else h p q (some (cell w (first ys null))) (λ e. apart_two (sym e)) ∙ two.2.1),
  )

-- The head is taken out.
pub behead-Holds :
    (h : Heap) (q v : ℕ) (xs : Cells) → Holds h ((q, v) ∷ xs) → Holds (update h q none) xs
behead-Holds h q v xs (c, d) = (Chain-update h q none xs null d.0 c.2, d.1)

pub suc_within :
    (xs : Cells) (c d : NodePtr × ℕ) (ys : Cells) → (length (xs ++ c ∷ d ∷ ys) == 1) ≡ false
suc_within xs c d ys = ground (arith, length-append xs (c ∷ d ∷ ys))

pub suc_one : (n : ℕ) → (suc (suc n) == 1) ≡ false
suc_one n = ground arith
