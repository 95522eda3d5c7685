-- ===== src/LinkedList/Shape.antt =====
-- When memory holds a linked list of workshop/linked-list.c, and what follows.
use comp.Base.{
  ℕ, suc, ◌+◌, ◌-◌, ◌≡◌, ◌≢◌, refl, sym, ap, ◌∙◌, [], ◌∷◌, ◌++◌, true, false, ◌==◌, length,
  length-append, arith, ◌⊎◌, inl, inr,
}
use comp.Heap.{NodePtr, null, Heap, Run, returns}
use comp.Heap.Cells.{Cells, first, last, Distinct, Chain, last-append, load_ok}
use comp.LinkedList.{LinkedList, linked_list, isconsistentlinkedlist, advance}

-- The struct of a list with these nodes.
abbrev pub list_of : Cells → LinkedList
list_of xs = linked_list (first xs null) (last null xs) (length xs)

-- The memory holds the nodes, which are different ones.
abbrev pub Holds : Heap → Cells → Type 0
Holds h xs = Chain h xs null × Distinct xs

pub first_null :
    (h : Heap) (p v : ℕ) (xs : Cells) → Chain h ((p, v) ∷ xs) null → (p == null) ≡ false
first_null h p v xs c = ground (arith, c.0)

last-null : (h : Heap) (b : NodePtr) (xs : Cells) → b ≢ null → Chain h xs null → last b xs ≢ null
last-null h b [] ne c = ne
last-null h b ((p, v) ∷ xs) ne c = last-null h p xs c.0 c.2

pub isconsistent-list_of :
    (h : Heap) (xs : Cells) → Holds h xs → isconsistentlinkedlist (list_of xs) ≡ true
unfolding isconsistentlinkedlist
isconsistent-list_of h [] c = refl
isconsistent-list_of h ((p, v) ∷ xs) c = ground (arith, c.0.0, last-null h p xs c.0.0 c.0.2)

-- Following `next` once for each node leads behind them.
pub advance_lem :
    (h : Heap) (xs : Cells) (p v : ℕ) (ys : Cells)
    → Chain h (xs ++ (p, v) ∷ ys) null
    → advance (length xs) (first (xs ++ (p, v) ∷ ys) null) h ≡ returns p h
unfolding advance
advance_lem h [] p v ys c = refl
advance_lem h ((q, w) ∷ xs) p v ys c = simp (
  first_null h q w (xs ++ (p, v) ∷ ys) c,
  load_ok h q (first (xs ++ (p, v) ∷ ys) null) w c.0 c.1,
  advance_lem h xs p v ys c.2,
)

-- The run returns the list with the nodes `xs`, which the memory then holds.
pub record Linked (r : Run LinkedList) (xs : Cells) : Type 0 where
  pub after : Heap
  pub result : r ≡ returns (list_of xs) after
  pub holds : Holds after xs

pub first-append :
    (xs : Cells) (c : NodePtr × ℕ) (ys zs : Cells)
    → first (xs ++ c ∷ ys) null ≡ first (xs ++ c ∷ zs) null
first-append [] c ys zs = refl
first-append (x ∷ xs) c ys zs = refl

pub first-not_null :
    (h : Heap) (xs : Cells) (c : NodePtr × ℕ) (ys : Cells)
    → Chain h (xs ++ c ∷ ys) null
    → (first (xs ++ c ∷ ys) null == null) ≡ false
first-not_null h [] (p, v) ys c = first_null h p v ys c
first-not_null h ((q, w) ∷ xs) x ys c = first_null h q w (xs ++ x ∷ ys) c

-- A row is empty or has a last node.
pub row_end : (xs : Cells) → (xs ≡ []) ⊎ ((ys : Cells) × ((c : NodePtr × ℕ) × (xs ≡ ys ++ c ∷ [])))
row_end [] = inl refl
row_end (x ∷ xs) = elim (row_end xs) [
  | inl e ↦ inr ([], (x, ap (λ k. x ∷ k) e))
  | inr (ys, (c, e)) ↦ inr (x ∷ ys, (c, ap (λ k. x ∷ k) e))
]

pub list_eq :
    (p q n p' q' n' : ℕ) → p ≡ p' → q ≡ q' → n ≡ n' → linked_list p q n ≡ linked_list p' q' n'
list_eq p q n p' q' n' a b c = cc

-- The struct once a node is linked behind another.
pub list_of-grown :
    (xs : Cells) (c d : NodePtr × ℕ) (ys : Cells) (foot : NodePtr)
    → foot ≡ last d.0 ys
    → linked_list (first (xs ++ c ∷ ys) null) foot (length (xs ++ c ∷ ys) + 1)
      ≡ list_of (xs ++ c ∷ d ∷ ys)
list_of-grown xs c d ys foot e =
    list_eq (first (xs ++ c ∷ ys) null) foot (length (xs ++ c ∷ ys) + 1)
      (first (xs ++ c ∷ d ∷ ys) null) (last null (xs ++ c ∷ d ∷ ys)) (length (xs ++ c ∷ d ∷ ys))
      (first-append xs c ys (d ∷ ys)) (e ∙ sym (last-append null xs (c ∷ d ∷ ys)))
      (omega (arith, length-append xs (c ∷ ys), length-append xs (c ∷ d ∷ ys)))

pub pred_suc : (n : ℕ) → suc n - 1 ≡ n
pred_suc n = omega arith

pub length_snoc : (xs : Cells) (c : NodePtr × ℕ) → length (xs ++ c ∷ []) ≡ suc (length xs)
length_snoc xs c = omega (arith, length-append xs (c ∷ []))

pub at_end : (xs : Cells) (c : NodePtr × ℕ) → (suc (length xs) == length (xs ++ c ∷ [])) ≡ true
at_end xs c = ground (arith, length_snoc xs c)

pub before_end :
    (xs : Cells) (c y : NodePtr × ℕ) (ys : Cells)
    → (suc (length xs) == length (xs ++ c ∷ y ∷ ys)) ≡ false
before_end xs c y ys = ground (arith, length-append xs (c ∷ y ∷ ys))

pub suc_zero : (n : ℕ) → (suc n == 0) ≡ false
suc_zero n = ground arith

pub Linked-run : (r r' : Run LinkedList) (xs : Cells) → r ≡ r' → Linked r' xs → Linked r xs
Linked-run r r' xs e l = record { after = l.after; result = e ∙ l.result; holds = l.holds }

-- A round of a loop for each node, then `k` more.
abbrev pub rounds : Cells → ℕ → ℕ
rounds [] k = k
rounds (x ∷ xs) k = suc (rounds xs k)

pub rounds_lem : (xs : Cells) (k : ℕ) → length xs + k ≡ rounds xs k
rounds_lem [] k = omega arith
rounds_lem (x ∷ xs) k = omega (arith, rounds_lem xs k)
