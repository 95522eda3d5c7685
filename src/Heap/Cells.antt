-- ===== src/Heap/Cells.antt =====
-- Nodes that are linked in a row, and what a write elsewhere leaves of them.
use comp.Base.{
  ℕ, ◌≡◌, ◌≢◌, refl, sym, ap, List, [], ◌∷◌, ◌++◌, Option, none, some, All, All-append, All-split,
  arith,
}
use comp.Heap.{NodePtr, null, LinkedListNode, cell, Heap, update, returns, load, set_next, free}

-- What a list stands for: the address and the value of each node, in order.
abbrev pub Cells : Type 0
Cells = List (NodePtr × ℕ)

abbrev pub values : Cells → List ℕ
values [] = []
values ((p, v) ∷ xs) = v ∷ values xs

-- The first address, or where the row ends if it is empty.
abbrev pub first : Cells → NodePtr → NodePtr
first [] stop = stop
first ((p, v) ∷ xs) stop = p

-- The last address, or the one before the row if it is empty.
abbrev pub last : NodePtr → Cells → NodePtr
last before [] = before
last before ((p, v) ∷ xs) = last p xs

-- The address is none of the row's.
abbrev pub Apart : NodePtr → Cells → Type 0
Apart a = All (λ (c : NodePtr × ℕ). a ≢ c.0)

abbrev pub Distinct : Cells → Type 0
Distinct [] = Unit
Distinct (c ∷ xs) = Apart c.0 xs × Distinct xs

-- Each node holds its value and the address of the next; the last one's next is `stop`.
abbrev pub Chain : Heap → Cells → NodePtr → Type 0
Chain h [] stop = Unit
Chain h ((p, v) ∷ xs) stop = (p ≢ null) × (h p ≡ some (cell v (first xs stop))) × Chain h xs stop

module _ (h : Heap) where
  pub Chain-split :
      (xs ys : Cells) (stop : NodePtr)
      → Chain h (xs ++ ys) stop
      → Chain h xs (first ys stop) × Chain h ys stop
  Chain-split [] ys stop c = (tt, c)
  Chain-split ((p, v) ∷ []) ys stop c = ((c.0, c.1, tt), c.2)
  Chain-split ((p, v) ∷ (q, w) ∷ xs) ys stop c =
      let (a, b) = Chain-split ((q, w) ∷ xs) ys stop c.2 in ((c.0, c.1, a), b)

  pub Chain-append :
      (xs ys : Cells) (stop : NodePtr)
      → Chain h xs (first ys stop)
      → Chain h ys stop
      → Chain h (xs ++ ys) stop
  Chain-append [] ys stop c d = d
  Chain-append ((p, v) ∷ []) ys stop c d = (c.0, c.1, d)
  Chain-append ((p, v) ∷ (q, w) ∷ xs) ys stop c d =
      (c.0, c.1, Chain-append ((q, w) ∷ xs) ys stop c.2 d)

  -- What is not allocated is no node of a row.
  pub Chain-Apart :
      (a : NodePtr) (xs : Cells) (stop : NodePtr) → h a ≡ none → Chain h xs stop → Apart a xs
  Chain-Apart a [] stop e c = tt
  Chain-Apart a ((p, v) ∷ xs) stop e c = (λ k. cc (ap h k), Chain-Apart a xs stop e c.2)

  pub Chain-update :
      (a : NodePtr) (x : Option LinkedListNode) (xs : Cells) (stop : NodePtr)
      → Apart a xs
      → Chain h xs stop
      → Chain (update h a x) xs stop
  unfolding update
  Chain-update a x [] stop out c = tt
  Chain-update a x ((p, v) ∷ xs) stop out c =
      (c.0, ground (arith, out.0, c.1), Chain-update a x xs stop out.1 c.2)

pub update_here : (h : Heap) (a : NodePtr) (x : Option LinkedListNode) → update h a x a ≡ x
unfolding update
update_here h a x = ground arith

pub update_else :
    (h : Heap) (a b : NodePtr) (x : Option LinkedListNode) → b ≢ a → update h a x b ≡ h b
unfolding update
update_else h a b x ne = ground (arith, ne)

pub last-append : (b : NodePtr) (xs ys : Cells) → last b (xs ++ ys) ≡ last (last b xs) ys
last-append b [] ys = refl
last-append b ((p, v) ∷ xs) ys = last-append p xs ys

-- A node in the middle of distinct ones is apart from the others, which are distinct.
pub Distinct-middle :
    (xs : Cells) (c : NodePtr × ℕ) (ys : Cells)
    → Distinct (xs ++ c ∷ ys)
    → Apart c.0 xs × Apart c.0 ys × Distinct (xs ++ ys)
Distinct-middle [] c ys d = (tt, d.0, d.1)
Distinct-middle (x ∷ xs) c ys d =
    let (a, b, e) = Distinct-middle xs c ys d.1 in
    let (l, r) = All-split (λ (y : NodePtr × ℕ). x.0 ≢ y.0) xs (c ∷ ys) d.0 in
    ((λ k. r.0 (sym k), a), b, (All-append (λ (y : NodePtr × ℕ). x.0 ≢ y.0) xs ys l r.1, e))

pub Distinct-insert :
    (xs : Cells) (c : NodePtr × ℕ) (ys : Cells)
    → Apart c.0 xs
    → Apart c.0 ys
    → Distinct (xs ++ ys)
    → Distinct (xs ++ c ∷ ys)
Distinct-insert [] c ys a b d = (b, d)
Distinct-insert (x ∷ xs) c ys a b d =
    let (l, r) = All-split (λ (y : NodePtr × ℕ). x.0 ≢ y.0) xs ys d.0 in
    (
      All-append (λ (y : NodePtr × ℕ). x.0 ≢ y.0) xs (c ∷ ys) l ((λ k. a.0 (sym k)), r),
      Distinct-insert xs c ys a.1 b d.1,
    )

-- The commands at an address that holds a node.
module _ (h : Heap) (p q : NodePtr) (v : ℕ) (ne : p ≢ null) (e : h p ≡ some (cell v q)) where
  pub load_ok : load p h ≡ returns (cell v q) h
  unfolding load
  load_ok = ground (arith, ne, e)

  pub set_next_ok : (r : NodePtr) → set_next p r h ≡ returns tt (update h p (some (cell v r)))
  unfolding set_next
  set_next_ok r = ground (arith, ne, e)

  pub free_ok : free p h ≡ returns tt (update h p none)
  unfolding free
  free_ok = ground (arith, ne, e)
