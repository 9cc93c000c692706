-- ===== src/LinkedList.antt =====
-- data_structures/linked_list/linked_list.h and linked_list.tpp: `LinkedList<T>`, a doubly linked
-- list between two sentinels. Nodes live on a heap at addresses, 0 is `nullptr`, and `none` is a
-- dereference of an address that holds no node. `data` is the caller's: no method but the
-- constructor looks at it, so it is left out. `curr_size` is never assigned: `size` returns whatever
-- the memory held, and is an argument of the model.
pub mod Shape
pub mod Insert
pub mod Unlink
pub mod Last
pub mod Tests
use ex2_file_system.Base.{
  ℕ, zero, suc, ◌==◌, ◌||◌, not, Bool, true, false, if◌then◌else◌, Option, none, some, ◌>>=◌,
  minus_one, List, [], ◌∷◌,
}

abbrev pub Ptr : Type 0
Ptr = ℕ

abbrev pub null : Ptr
null = 0

pub record Heap : Type 0 where
  pub allocated : Ptr → Bool
  pub next : Ptr → Ptr
  pub prev : Ptr → Ptr

abbrev pub update : (Ptr → Ptr) → Ptr → Ptr → Ptr → Ptr
update f p v q = if p == q then v else f q

pub record LinkedList : Type 0 where
  pub head : Ptr
  pub tail : Ptr
  pub curr_size : ℕ

-- `p->next`, `p->prev`, and assignments to them.
unfoldable pub get_next : Ptr → Heap → Option Ptr
get_next p h = if h.allocated p then some (h.next p) else none

unfoldable pub get_prev : Ptr → Heap → Option Ptr
get_prev p h = if h.allocated p then some (h.prev p) else none

unfoldable pub set_next : Ptr → Ptr → Heap → Option Heap
set_next p v h = if h.allocated p then some (record h { next = update h.next p v }) else none

unfoldable pub set_prev : Ptr → Ptr → Heap → Option Heap
set_prev p v h = if h.allocated p then some (record h { prev = update h.prev p v }) else none

-- `new ListNode<T>(T{})` at an address that the allocator chose.
unfoldable pub new_node : Ptr → Heap → Heap
new_node p h = record {
  allocated = λ q. if p == q then true else h.allocated q;
  next = update h.next p null;
  prev = update h.prev p null;
}

-- `LinkedList()`, with the two addresses and what `curr_size` held.
unfoldable pub create : Ptr → Ptr → ℕ → Heap → Option (LinkedList × Heap)
create head tail junk h = do
  let h = new_node tail (new_node head h)
  h' ← set_next head tail h
  h'' ← set_prev tail head h'
  some (record { head = head; tail = tail; curr_size = junk }, h'')

-- `~LinkedList`, on fuel: each node from the head on is freed. `free` makes its address invalid.
unfoldable pub destroy_loop : ℕ → Ptr → Heap → Option Heap
destroy_loop zero curr_node h = none
destroy_loop (suc k) curr_node h =
    let rest : Option Heap = do
      next_node ← get_next curr_node h
      destroy_loop k next_node
          (record h { allocated = λ q. if curr_node == q then false else h.allocated q })
    in if curr_node == null then some h else rest

module _ (l : LinkedList) where
  unfoldable pub get_head : Heap → Option Ptr
  get_head h = do first ← get_next l.head h; some (if first == l.tail then null else first)

  unfoldable pub get_tail : Heap → Option Ptr
  get_tail h = do last ← get_prev l.tail h; some (if last == l.head then null else last)

  unfoldable pub size : ℕ
  size = l.curr_size

  abbrev pub is_sentinel : Ptr → Bool
  is_sentinel node = node == l.head || node == l.tail

  unfoldable pub unlink : Ptr → Heap → Option (ℕ × Heap)
  unlink node h = if is_sentinel node then some (minus_one, h) else do
    prev_node ← get_prev node h
    next_node ← get_next node h
    h1 ← if not (next_node == null) then set_prev next_node prev_node h else some h
    h2 ← if not (prev_node == null) then set_next prev_node next_node h1 else some h1
    h3 ← set_prev node null h2
    h4 ← set_next node null h3
    some (1, h4)

  unfoldable pub insert_helper : Ptr → Ptr → Ptr → Heap → Option (ℕ × Heap)
  insert_helper prev_node curr_node next_node h =
      if prev_node == null || curr_node == null || next_node == null
      then some (minus_one, h)
      else do
        h1 ← set_next prev_node curr_node h
        h2 ← set_prev curr_node prev_node h1
        h3 ← set_next curr_node next_node h2
        h4 ← set_prev next_node curr_node h3
        some (0, h4)

  unfoldable pub insert_head : Ptr → Heap → Option (ℕ × Heap)
  insert_head node h = if is_sentinel node then some (minus_one, h) else do
    (status, h') ← unlink node h
    if status == minus_one
        then some (minus_one, h')
        else do first ← get_next l.head h'; insert_helper l.head node first h'

  unfoldable pub insert_tail : Ptr → Heap → Option (ℕ × Heap)
  insert_tail node h = if is_sentinel node then some (minus_one, h) else do
    (status, h') ← unlink node h
    if status == minus_one
        then some (minus_one, h')
        else do last ← get_prev l.tail h'; insert_helper last node l.tail h'

-- `Iterator` is the node that it stands at.
unfoldable pub begin : LinkedList → Heap → Option Ptr
begin l h = do node ← get_head l h; some (if node == null then l.tail else node)

abbrev pub end : LinkedList → Ptr
end l = l.tail

-- `operator++`
unfoldable pub advance : Ptr → Heap → Option Ptr
advance curr_node h = if curr_node == null then some curr_node else get_next curr_node h

-- A `for` loop from `begin()` to `end()`, on fuel: the nodes that it visits.
unfoldable pub visit_loop : LinkedList → ℕ → Ptr → Heap → Option (List Ptr)
visit_loop l zero curr_node h = none
visit_loop l (suc k) curr_node h =
    let rest : Option (List Ptr) = do
      next_node ← advance curr_node h
      others ← visit_loop l k next_node h
      some (curr_node ∷ others)
    in if curr_node == end l then some [] else rest
