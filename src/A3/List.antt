-- ===== src/A3/List.antt =====
-- The doubly linked lists of a3/linked_list.h and a3/linked_list.c, with a dummy node at each end.
pub mod Nodes
pub mod Insert
pub mod Remove
pub mod Ends
pub mod Pops
pub mod Values
pub mod Removal
mod Tests
use comp310_w.Prelude.{ℕ, zero, suc, ◌+◌, ◌-◌, leb, ◌==◌, if◌then◌else◌, not, Bool, true, false}
use comp310_w.Prelude.Update.{update}

abbrev pub Ptr : Type 0
Ptr = ℕ

abbrev pub null : Ptr
null = 0

-- The fields of the nodes, by their addresses.
pub record Store (D : Type 0) : Type 0 where
  pub payload : Ptr → D
  pub next : Ptr → Ptr
  pub prev : Ptr → Ptr

-- `LINKED_LIST`, without the function `equal`, which is passed on its own.
pub record LinkedList : Type 0 where
  pub size : ℕ
  pub dummy_head : Ptr
  pub dummy_tail : Ptr

-- A call returns, ends the program by `exit(99)`, uses the null pointer, or is out of fuel.
pub data Outcome (A : Type 0) : Type 0 where
  done : A → Outcome A
  exited : Outcome A
  crashed : Outcome A
  no_fuel : Outcome A

-- What follows a call that returns.
abbrev pub bind : {A B : Type 0} → Outcome A → (A → Outcome B) → Outcome B
bind (done a) f = f a
bind exited f = exited
bind crashed f = crashed
bind no_fuel f = no_fuel

module _ {D : Type 0} where
  abbrev pub set_next : Ptr → Ptr → Store D → Store D
  set_next p q s = record s { next = update s.next p q }

  abbrev pub set_prev : Ptr → Ptr → Store D → Store D
  set_prev p q s = record s { prev = update s.prev p q }

  abbrev pub set_payload : Ptr → D → Store D → Store D
  set_payload p d s = record s { payload = update s.payload p d }

  -- Whether there is a node behind; the node, and the one behind it; its data, and that node.
  abbrev pub has_next : Ptr → Store D → Bool
  has_next elem s = not (s.next elem == null)

  abbrev pub next_node : Ptr → Store D → Ptr × Ptr
  next_node node s = (node, s.next node)

  abbrev pub next : Ptr → Store D → D × Ptr
  next elem s = let (ret, elem') = next_node elem s in (s.payload ret, elem')

  unfoldable pub list_clear : LinkedList → Store D → LinkedList × Store D
  list_clear list s = (
    record list { size = 0 },
    set_prev list.dummy_tail list.dummy_head (set_next list.dummy_head list.dummy_tail s),
  )

  -- `malloc` has returned `new_node`.
  unfoldable pub add_tail : Ptr → D → LinkedList → Store D → LinkedList × Store D
  add_tail new_node d list s =
      let old_tail = s.prev list.dummy_tail in
      let s1 = set_payload new_node d s in
      let s2 = set_prev new_node old_tail (set_next old_tail new_node s1) in
      let s3 = set_prev list.dummy_tail new_node (set_next new_node list.dummy_tail s2) in
      (record list { size = list.size + 1 }, s3)

  unfoldable pub add_head : Ptr → D → LinkedList → Store D → LinkedList × Store D
  add_head new_node d list s =
      let old_head = s.next list.dummy_head in
      let s1 = set_payload new_node d s in
      let s2 = set_next new_node old_head (set_prev old_head new_node s1) in
      let s3 = set_next list.dummy_head new_node (set_prev new_node list.dummy_head s2) in
      (record list { size = list.size + 1 }, s3)

  -- `to_be_deleted->prev->next = ...; to_be_deleted->next->prev = ...`
  unfoldable pub unlink : Ptr → Store D → Store D
  unlink node s =
      let s1 = set_next (s.prev node) (s.next node) s in set_prev (s1.next node) (s1.prev node) s1

  abbrev pub delete : Ptr → LinkedList → Store D → D × (LinkedList × Store D)
  delete node list s =
      let s' = unlink node s in (s'.payload node, (record list { size = list.size - 1 }, s'))

  unfoldable pub pop_head : LinkedList → Store D → Outcome (D × (LinkedList × Store D))
  pop_head list s = if list.size == 0 then exited else done (delete (s.next list.dummy_head) list s)

  unfoldable pub pop_tail : LinkedList → Store D → Outcome (D × (LinkedList × Store D))
  pop_tail list s = if list.size == 0 then exited else done (delete (s.prev list.dummy_tail) list s)

  -- The loop of `get_node_by_index`: `n` nodes further.
  unfoldable pub walk : Store D → ℕ → Ptr → Ptr
  walk s zero curr = curr
  walk s (suc n) curr = walk s n (s.next curr)

  -- The null pointer for an index that is not valid.
  unfoldable pub get_node_by_index : LinkedList → ℕ → Store D → Ptr
  get_node_by_index list index s =
      if leb list.size index then null else walk s index (s.next list.dummy_head)

  unfoldable pub get_by_index : LinkedList → ℕ → Store D → Outcome D
  get_by_index list index s =
      let target_node = get_node_by_index list index s in
      if target_node == null then crashed else done (s.payload target_node)

  -- `list->equal`
  module _ (equal : D → D → Bool) where
    -- The loop of `get_node_by_value`, which ends at the null pointer.
    unfoldable pub search : ℕ → D → Store D → Ptr → Outcome Ptr
    search zero target s curr = no_fuel
    search (suc k) target s curr =
        let further = search k target s (s.next curr) in
        if curr == null
        then done curr
        else if not (equal target (s.payload curr))
        then further
        else done curr

    unfoldable pub get_node_by_value : ℕ → D → LinkedList → Store D → Outcome Ptr
    get_node_by_value fuel target list s = search fuel target s (s.next list.dummy_head)

    unfoldable pub get_by_value : ℕ → D → LinkedList → Store D → Outcome D
    get_by_value fuel target list s =
        bind (get_node_by_value fuel target list s)
          (λ node. if node == null then crashed else done (s.payload node))

    unfoldable pub remove_elem : ℕ → D → LinkedList → Store D → Outcome (D × (LinkedList × Store D))
    remove_elem fuel target list s =
        bind (get_node_by_value fuel target list s)
          (λ node. if node == null then crashed else done (delete node list s))

  unfoldable pub swap : Ptr → Ptr → Store D → Store D
  swap node1 node2 s =
      let tmp = s.payload node1 in set_payload node2 tmp (set_payload node1 (s.payload node2) s)

  -- `malloc` has returned the two nodes.
  unfoldable pub list_init : Ptr → Ptr → Store D → LinkedList × Store D
  list_init head tail s = (
    record { size = 0; dummy_head = head; dummy_tail = tail },
    set_prev tail head (set_next head tail (set_next tail null s)),
  )
