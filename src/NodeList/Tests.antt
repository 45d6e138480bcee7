-- ===== src/NodeList/Tests.antt =====
-- The list operations at concrete stores, and the theorems about them there.
use libapi.Base.{refl, [], ◌∷◌, none, arith}
use libapi.Memory.{Store, write}
use libapi.Memory.Returns.{Returns}
use libapi.NodeList.{Node, node, NodeList, handle, remove}
use libapi.NodeList.Chain.{IsList}
use libapi.NodeList.Ends.{Popped}
use libapi.NodeList.Remove.{remove_lem}

abbrev empty : Store Node
empty a = none

-- The list 1, 2, 3, and a fourth node that is in no list.
abbrev heap : Store Node
heap = write (write (write (write empty 1 (node 2 0)) 2 (node 3 1)) 3 (node 0 2)) 4 (node 9 9)

abbrev l : NodeList
l = handle 1 3

heap-IsList : IsList heap l (1 ∷ 2 ∷ 3 ∷ [])
unfolding write
heap-IsList = record { head = refl; tail = refl; chain = ground arith }

remove_lem_example : Returns (Popped heap 2 (1 ∷ 3 ∷ [])) (remove l 2 heap)
remove_lem_example = remove_lem heap l (1 ∷ []) 2 (3 ∷ []) heap-IsList
