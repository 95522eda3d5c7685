-- ===== src/LinkedList.antt =====
-- workshop/linked-list.c. A function that updates the list returns the new value of its struct; it is
-- given the address that malloc() returns where it allocates. The list itself is never null.
pub mod Search
pub mod Shape
pub mod Position
pub mod Growth
pub mod Insert
pub mod Removal
pub mod Remove
pub mod Pop
use comp.Base.{
  ℕ, zero, suc, ◌+◌, ◌-◌, List, [], ◌∷◌, Option, none, some, Bool, true, false, ◌&&◌, ltb, leb,
  ◌==◌, if◌then◌else◌,
}
use comp.Heap.{
  NodePtr, null, LinkedListNode, Heap, Run, returns, Cmd, pure, abort, ◌>>=◌, ◌>>◌, load, set_next,
  free, new_node,
}

pub record LinkedList : Type 0 where
  pub head : NodePtr
  pub foot : NodePtr
  pub size : ℕ

abbrev pub linked_list : NodePtr → NodePtr → ℕ → LinkedList
linked_list head foot size = record { head = head; foot = foot; size = size }

abbrev same_truth : Bool → Bool → Bool
same_truth true b = b
same_truth false true = false
same_truth false false = true

pub isconsistentlinkedlist : LinkedList → Bool
isconsistentlinkedlist l =
    same_truth (l.head == null) (l.foot == null) && same_truth (l.foot == null) (l.size == 0)

newlinkedlist : LinkedList
newlinkedlist = linked_list null null 0

-- assert().
abbrev pub assert : Bool → Cmd (Unit {0})
assert true = pure tt
assert false = abort

-- A loop that follows `next` a number of times and asserts each time that the node is not null.
pub advance : ℕ → NodePtr → Cmd NodePtr
advance zero p = pure p
advance (suc i) p = if p == null then abort else do n ← load p; advance i n.next

pub getatlinkedlist : LinkedList → ℕ → Cmd ℕ
unfolding advance
getatlinkedlist l index = do
  assert (if l.head == null then false else ltb index l.size)
  p ← advance index l.head
  n ← load p
  pure n.value

-- The node is linked behind the foot.
pub link_foot : LinkedList → NodePtr → Cmd LinkedList
link_foot l fresh = do set_next l.foot fresh; pure (linked_list l.head fresh (l.size + 1))

pub appendlinkedlist : NodePtr → LinkedList → ℕ → Cmd LinkedList
unfolding link_foot isconsistentlinkedlist
appendlinkedlist fresh l value = do
  assert (isconsistentlinkedlist l)
  new_node fresh value
  if l.size == 0 then pure (linked_list fresh fresh 1) else link_foot l fresh

pub link_head : LinkedList → NodePtr → Cmd LinkedList
link_head l fresh = do set_next fresh l.head; pure (linked_list fresh l.foot (l.size + 1))

-- The node is linked behind the one at the position before `index`.
pub link_middle : LinkedList → ℕ → NodePtr → Cmd LinkedList
unfolding advance
link_middle l index fresh = do
  nodei ← advance (index - 1) l.head
  n ← load nodei
  set_next fresh n.next
  set_next nodei fresh
  pure (linked_list l.head l.foot (l.size + 1))

-- The new node is linked in where it belongs.
pub link_at : NodePtr → LinkedList → ℕ → Cmd LinkedList
unfolding link_foot link_head link_middle
link_at fresh l index =
    if l.size == 0
    then pure (linked_list fresh fresh 1)
    else if index == 0
    then link_head l fresh
    else if index == l.size
    then link_foot l fresh
    else link_middle l index fresh

pub addlinkedlist : NodePtr → LinkedList → ℕ → ℕ → Cmd LinkedList
unfolding link_at isconsistentlinkedlist
addlinkedlist fresh l index value = do
  assert (leb index l.size && isconsistentlinkedlist l)
  new_node fresh value
  link_at fresh l index

-- The body of the loop of `poplinkedlist` at a node: when the next one is the foot, it is freed.
pub pop_at : LinkedList → NodePtr → LinkedListNode → Cmd LinkedList
pop_at l p n =
    if n.next == l.foot
    then (do free l.foot; set_next p null; pure (linked_list l.head p (l.size - 1)))
    else pure l

pub pop_loop : ℕ → LinkedList → NodePtr → Cmd LinkedList
unfolding pop_at
pop_loop zero l p = λ _. Run.exhausted
pop_loop (suc fuel) l p =
    if p == null
    then pure l
    else do n ← load p; l' ← pop_at l p n; n' ← load p; pop_loop fuel l' n'.next

-- The loop has a round for each node and one more.
pub poplinkedlist : LinkedList → Cmd (ℕ × LinkedList)
unfolding pop_loop isconsistentlinkedlist
poplinkedlist l = do
  assert (if l.head == null then false else isconsistentlinkedlist l)
  foot ← load l.foot
  l' ← pop_loop (l.size + 1) l l.head
  pure (foot.value, l')

-- The only node goes.
pub remove_only : LinkedList → Cmd (ℕ × LinkedList)
remove_only l = do n ← load l.head; free l.head; pure (n.value, linked_list null null 0)

pub remove_head : LinkedList → Cmd (ℕ × LinkedList)
remove_head l = do
  n ← load l.head
  free l.head
  pure (n.value, linked_list n.next l.foot (l.size - 1))

-- The node behind `nodei` goes.
remove_behind : LinkedList → ℕ → NodePtr → Cmd (ℕ × LinkedList)
remove_behind l index nodei = do
  before ← load nodei
  assert (if index == l.size - 1 then before.next == l.foot else true)
  n ← load before.next
  set_next nodei n.next
  free before.next
  pure (n.value, linked_list l.head (if index == l.size - 1 then nodei else l.foot) (l.size - 1))

pub remove_middle : LinkedList → ℕ → Cmd (ℕ × LinkedList)
unfolding advance remove_behind
remove_middle l index = do nodei ← advance (index - 1) l.head; remove_behind l index nodei

pub unlink_at : LinkedList → ℕ → Cmd (ℕ × LinkedList)
unfolding remove_only remove_head remove_middle
unlink_at l index =
    if l.size == 1
    then remove_only l
    else if index == 0
    then remove_head l
    else remove_middle l index

pub removeatlinkedlist : LinkedList → ℕ → Cmd (ℕ × LinkedList)
unfolding unlink_at isconsistentlinkedlist
removeatlinkedlist l index = do
  assert (ltb index l.size && isconsistentlinkedlist l)
  unlink_at l index
