-- ===== src/Examples/Lists.antt =====
-- A list of workshop/linked-list.c in memory, and instances of the theorems about its functions.
use comp.Base.{◌≡◌, refl, [], ◌∷◌, none, some, true, ◌==◌, if◌then◌else◌, arith}
use comp.Heap.{Heap, returns, cell}
use comp.Heap.Cells.{Cells}
use comp.LinkedList.{addlinkedlist, poplinkedlist, removeatlinkedlist}
use comp.LinkedList.Shape.{list_of, Holds, Linked}
use comp.LinkedList.Insert.{addlinkedlist_lem}
use comp.LinkedList.Removal.{Unlinked}
use comp.LinkedList.Remove.{removeatlinkedlist_lem}
use comp.LinkedList.Pop.{poplinkedlist_lem, poplinkedlist_only}
use comp.LinkedList.Search.{removefromlinkedlist, freelinkedlist}
use comp.LinkedList.Search.Erase.{removefromlinkedlist_lem}
use comp.LinkedList.Search.Traverse.{Freed, freelinkedlist_lem}

abbrev memory : Heap
memory a =
    if a == 5
    then some (cell 10 3)
    else if a == 3
    then some (cell 20 8)
    else if a == 8
    then some (cell 30 0)
    else none

abbrev three_cells : Cells
three_cells = (5, 10) ∷ (3, 20) ∷ (8, 30) ∷ []

three_cells-Holds : Holds memory three_cells
three_cells-Holds = (
  (omega arith, refl, (omega arith, refl, (omega arith, refl, tt))),
  ((omega arith, (omega arith, tt)), ((omega arith, tt), (tt, tt))),
)

abbrev one_cell : Cells
one_cell = (8, 30) ∷ []

one_cell-Holds : Holds memory one_cell
one_cell-Holds = ((omega arith, refl, tt), (tt, tt))

addlinkedlist_lem_example :
    Linked
      (addlinkedlist 4 (list_of three_cells) 1 15 memory)
      ((5, 10) ∷ (4, 15) ∷ (3, 20) ∷ (8, 30) ∷ [])
addlinkedlist_lem_example =
    addlinkedlist_lem memory 4 15 (omega arith) refl ((5, 10) ∷ []) ((3, 20) ∷ (8, 30) ∷ [])
      three_cells-Holds

removeatlinkedlist_lem_example :
    Unlinked (removeatlinkedlist (list_of three_cells) 2 memory) 30 8 ((5, 10) ∷ (3, 20) ∷ [])
removeatlinkedlist_lem_example =
    removeatlinkedlist_lem memory ((5, 10) ∷ (3, 20) ∷ []) 8 30 [] three_cells-Holds

poplinkedlist_lem_example :
    Unlinked (poplinkedlist (list_of three_cells) memory) 30 8 ((5, 10) ∷ (3, 20) ∷ [])
poplinkedlist_lem_example = poplinkedlist_lem memory ((5, 10) ∷ []) 3 20 8 30 three_cells-Holds

poplinkedlist_only_example :
    poplinkedlist (list_of one_cell) memory ≡ returns (30, list_of one_cell) memory
poplinkedlist_only_example = poplinkedlist_only memory 8 30 one_cell-Holds

removefromlinkedlist_lem_example :
    Unlinked (removefromlinkedlist (list_of three_cells) 20 memory) true 3 ((5, 10) ∷ (8, 30) ∷ [])
removefromlinkedlist_lem_example =
    removefromlinkedlist_lem memory ((5, 10) ∷ []) 3 20 ((8, 30) ∷ []) three_cells-Holds
      (omega arith, tt)

freelinkedlist_lem_example : Freed memory three_cells (freelinkedlist (list_of three_cells) memory)
freelinkedlist_lem_example = freelinkedlist_lem memory three_cells three_cells-Holds
