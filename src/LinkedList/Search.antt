-- ===== src/LinkedList/Search.antt =====
-- workshop/linked-list.c, the functions that go through the whole list. Each loop has a round for each
-- node and one more.
pub mod Erase
pub mod Traverse
use comp.Base.{
  ℕ, zero, suc, ◌+◌, ◌-◌, List, [], ◌∷◌, Option, none, some, Bool, true, false, ◌==◌, if◌then◌else◌,
}
use comp.Heap.{NodePtr, null, LinkedListNode, Run, Cmd, pure, ◌>>=◌, ◌>>◌, load, set_next, free}
use comp.LinkedList.{LinkedList, linked_list, isconsistentlinkedlist, assert}

-- The only node, with the data, goes.
erase_only : LinkedList → Cmd LinkedList
erase_only l = do free l.head; pure (linked_list null null 0)

erase_head : LinkedList → NodePtr → LinkedListNode → Cmd LinkedList
erase_head l p n = do free p; pure (linked_list n.next l.foot (l.size - 1))

-- The node `p` behind `prev` goes.
erase_behind : LinkedList → NodePtr → NodePtr → LinkedListNode → Cmd LinkedList
erase_behind l prev p n = do
  set_next prev n.next
  free p
  pure (linked_list l.head (if p == l.foot then prev else l.foot) (l.size - 1))

pub erase : LinkedList → NodePtr → NodePtr → LinkedListNode → Cmd LinkedList
unfolding erase_only erase_head erase_behind
erase l prev p n =
    if l.size == 1
    then erase_only l
    else if p == l.head
    then erase_head l p n
    else erase_behind l prev p n

-- The loop of `removefromlinkedlist`, at the node `p` behind `prev`.
pub remove_loop : ℕ → LinkedList → ℕ → NodePtr → NodePtr → Cmd (Bool × LinkedList)
unfolding erase
remove_loop zero l value prev p = λ _. Run.exhausted
remove_loop (suc fuel) l value prev p = if p == null then pure (false, l) else do
  n ← load p
  if n.value == value
      then (do l' ← erase l prev p n; pure (true, l'))
      else remove_loop fuel l value p n.next

pub removefromlinkedlist : LinkedList → ℕ → Cmd (Bool × LinkedList)
unfolding remove_loop
removefromlinkedlist l value = do
  assert (isconsistentlinkedlist l)
  remove_loop (l.size + 1) l value null l.head

-- The loop of `indexoflinkedlist`, at the index `i`; `none` stands for -1.
pub index_loop : ℕ → ℕ → ℕ → NodePtr → Cmd (Option ℕ)
index_loop zero value i p = λ _. Run.exhausted
index_loop (suc fuel) value i p = if p == null then pure none else do
  n ← load p
  if n.value == value then pure (some i) else index_loop fuel value (i + 1) n.next

pub indexoflinkedlist : LinkedList → ℕ → Cmd (Option ℕ)
unfolding index_loop
indexoflinkedlist l value = index_loop (l.size + 1) value 0 l.head

-- The loop of `toarraylinkedlist`: the items of the array, in order. A write past the array, which has
-- `room` items left, is a fault.
pub array_loop : ℕ → ℕ → NodePtr → Cmd (List ℕ)
array_loop zero room p = λ _. Run.exhausted
array_loop (suc fuel) zero p = if p == null then pure [] else λ _. Run.faults
array_loop (suc fuel) (suc room) p =
    if p == null
    then pure []
    else do n ← load p; items ← array_loop fuel room n.next; pure (n.value ∷ items)

-- `array` is the address that malloc() returns for the array.
pub toarraylinkedlist : NodePtr → LinkedList → Cmd (List ℕ)
unfolding array_loop
toarraylinkedlist array l = do
  assert (if array == null then false else true)
  array_loop (l.size + 1) l.size l.head

pub free_loop : ℕ → NodePtr → Cmd (Unit {0})
free_loop zero p = λ _. Run.exhausted
free_loop (suc fuel) p = if p == null then pure tt else do n ← load p; free p; free_loop fuel n.next

-- The nodes; the struct of the list lies outside the heap.
pub freelinkedlist : LinkedList → Cmd (Unit {0})
unfolding free_loop
freelinkedlist l = free_loop (l.size + 1) l.head
