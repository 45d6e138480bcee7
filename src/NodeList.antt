-- ===== src/NodeList.antt =====
-- api/src/api_list.h: the intrusive doubly linked list that timers, filters and transfer
-- buffers are kept in. A handle lives outside the store of nodes, so an operation that
-- updates it returns the new one.
pub mod Chain
pub mod Ends
pub mod Remove
mod Tests
use libapi.Base.{ℕ, ◌≡◌, ◌≢◌, Bool, true, false, List, [], ◌∷◌, ◌==◌, if◌then◌else◌, has, arith}
use libapi.Memory.{Ptr, null, Store, Cmd, pure, ◌>>=◌, ◌>>◌, load, modify}

-- `api_node_t`
pub record Node : Type 0 where
  pub next : Ptr
  pub prev : Ptr

abbrev pub node : Ptr → Ptr → Node
node n p = record { next = n; prev = p }

-- `api_list_t`
pub record NodeList : Type 0 where
  pub head : Ptr
  pub tail : Ptr

abbrev pub handle : Ptr → Ptr → NodeList
handle h t = record { head = h; tail = t }

abbrev pub set_next : Ptr → Ptr → Cmd Node (Unit {0})
set_next p q = modify p (λ n. record n { next = q })

abbrev pub set_prev : Ptr → Ptr → Cmd Node (Unit {0})
set_prev p q = modify p (λ n. record n { prev = q })

pub push_head : NodeList → Ptr → Cmd Node NodeList
push_head l n = do
  set_prev n null
  set_next n null
  if l.head == null
      then pure (handle n n)
      else do set_next n l.head; set_prev l.head n; pure (record l { head = n })

pub push_tail : NodeList → Ptr → Cmd Node NodeList
push_tail l n = do
  set_prev n null
  set_next n null
  if l.tail == null
      then pure (handle n n)
      else do set_prev n l.tail; set_next l.tail n; pure (record l { tail = n })

-- The node is null if the list is empty.
pub pop_head : NodeList → Cmd Node (Ptr × NodeList)
pop_head l = if l.head == null then pure (null, l) else do
  n ← load l.head
  if l.tail == l.head
      then pure (l.head, handle n.next null)
      else do set_prev n.next null; pure (l.head, record l { head = n.next })

pub pop_tail : NodeList → Cmd Node (Ptr × NodeList)
pop_tail l = if l.tail == null then pure (null, l) else do
  n ← load l.tail
  if l.head == l.tail
      then pure (l.tail, handle null n.prev)
      else do set_next n.prev null; pure (l.tail, record l { tail = n.prev })

-- Both links of the node are read again from the store, as the source does.
unlink : Ptr → Cmd Node (Unit {0})
unlink p = do n ← load p; set_next n.prev n.next; m ← load p; set_prev m.next m.prev

pub remove : NodeList → Ptr → Cmd Node (Ptr × NodeList)
unfolding pop_head pop_tail unlink
remove l p =
    if p == l.head then pop_head l else if p == l.tail then pop_tail l else do unlink p; pure (p, l)
