-- ===== src/Heap.antt =====
-- Memory with the nodes of workshop/linked-list.c, and the commands that read and write it.
pub mod Cells
use comp.Base.{ℕ, Option, none, some, true, false, ◌==◌, if◌then◌else◌}

-- linkedlistnode_t; the data, an int, is given by its bit pattern.
pub record LinkedListNode : Type 0 where
  pub value : ℕ
  pub next : ℕ

-- A run returns, or fails an assert(), or reads or frees what is not allocated, or has no fuel left.
pub data Run (A : Type 0) : Type 0 where
  aborts : Run A
  faults : Run A
  exhausted : Run A
  returns : A → (ℕ → Option LinkedListNode) → Run A

-- The addresses of nodes; the null pointer is 0.
abbrev pub NodePtr : Type 0
NodePtr = ℕ

abbrev pub null : NodePtr
null = 0

-- What is allocated at an address.
abbrev pub Heap : Type 0
Heap = NodePtr → Option LinkedListNode

unfoldable pub update : Heap → NodePtr → Option LinkedListNode → Heap
update heap address content other = if other == address then content else heap other

abbrev pub cell : ℕ → NodePtr → LinkedListNode
cell data_value after = record { next = after; value = data_value }

-- A command is a run for each memory that it may start in.
abbrev pub Cmd : Type 0 → Type 0
Cmd Result = Heap → Run Result

abbrev pub abort : {A : Type 0} → Cmd A
abort memory = aborts

abbrev pub pure : {A : Type 0} → A → Cmd A
pure result memory = returns result memory

abbrev pub and_then : {A B : Type 0} → Run A → (A → Cmd B) → Run B
and_then exhausted following = exhausted
and_then faults following = faults
and_then aborts following = aborts
and_then (returns result memory) following = following result memory

infixl 5 ◌>>=◌ ◌>>◌
abbrev pub ◌>>=◌ : {A B : Type 0} → Cmd A → (A → Cmd B) → Cmd B
(command >>= following) memory = and_then (command memory) following

abbrev pub ◌>>◌ : {B : Type 0} → Cmd (Unit {0}) → Cmd B → Cmd B
command >> following = command >>= λ _. following

load_node : Option LinkedListNode → Cmd LinkedListNode
load_node none h = faults
load_node (some n) h = returns n h

-- `*p`.
unfoldable pub load : NodePtr → Cmd LinkedListNode
unfolding load_node
load p h = if p == null then faults else load_node (h p) h

-- `p->next = q`.
unfoldable pub set_next : NodePtr → NodePtr → Cmd (Unit {0})
unfolding load
set_next p q = do n ← load p; λ h. returns tt (update h p (some (record n { next = q })))

unfoldable pub free : NodePtr → Cmd (Unit {0})
unfolding load
free p = do n ← load p; λ h. returns tt (update h p none)

-- The node that malloc() gave at the address `fresh` is filled; the null pointer fails the assert().
unfoldable pub new_node : NodePtr → ℕ → Cmd (Unit {0})
new_node fresh value h =
    if fresh == null then aborts else returns tt (update h fresh (some (cell value null)))
