-- ===== src/A2/ReadyQueue.antt =====
-- The ready queue of the second assignment (a2/ready_queue.c): a singly linked list behind the
-- global `head`. Each loop takes fuel, and one round more than the queue has nodes is enough.
pub mod Ends
pub mod Order
pub mod Promote
pub mod Scores
pub mod Sort
pub mod Swap
use comp310_w.Prelude.{ℕ, zero, suc, ◌-◌, ◌==◌, ltb, if◌then◌else◌, Bool, true, false, not, ◌&&◌}
use comp310_w.A2.Pcb.{Pcb}
use comp310_w.A2.Store.{
  Ptr, null, QueueNode, Cmd, no_fuel, ◌>>=◌, ◌>>◌, return, get_head, set_head, load, set_next,
  set_pcb, free,
}

abbrev pub max_int : ℕ
max_int = 2147483646

-- `while (cur->next != NULL) { free(cur); cur = cur->next; } free(cur);`
destroy_loop : ℕ → Ptr → Cmd (Unit {0})
destroy_loop zero cur = λ _. no_fuel
destroy_loop (suc k) cur = do
  n ← load cur
  if n.next == null then free cur else (do free cur; destroy_loop k n.next)

-- `ready_queue_destroy`: `head` keeps the address of the freed first node.
pub ready_queue_destroy : ℕ → Cmd (Unit {0})
unfolding destroy_loop
ready_queue_destroy fuel = do
  head ← get_head
  if head == null then return tt else destroy_loop fuel head

-- `while (cur->next != NULL) cur = cur->next;`
last_node : ℕ → Ptr → Cmd Ptr
last_node zero cur = λ _. no_fuel
last_node (suc k) cur = do n ← load cur; if n.next == null then return cur else last_node k n.next

pub ready_queue_add_to_tail : ℕ → Ptr → Cmd (Unit {0})
unfolding last_node
ready_queue_add_to_tail fuel new = do
  head ← get_head
  if head == null
      then (do set_head new; set_next new null)
      else (do cur ← last_node fuel head; set_next cur new; n ← load cur; set_next n.next null)

pub ready_queue_add_to_head : Ptr → Cmd (Unit {0})
ready_queue_add_to_head new = do
  head ← get_head
  if head == null
      then (do set_head new; set_next new null)
      else (do set_next new head; set_head new)

unfoldable pub is_ready_empty : Cmd Bool
is_ready_empty = do head ← get_head; return (head == null)

-- `ready_queue_pop_head`: the node's own `next` stays as it was.
pub ready_queue_pop_head : Cmd Ptr
ready_queue_pop_head = do
  tmp ← get_head
  if tmp == null then return tmp else (do n ← load tmp; set_head n.next; return tmp)

decrement_loop : ℕ → Ptr → Cmd (Unit {0})
decrement_loop zero cur = λ _. no_fuel
decrement_loop (suc k) cur = if cur == null then return tt else do
  n ← load cur
  (if ltb 0 (n.pcb.job_length_score)
      then set_pcb cur (record (n.pcb) { job_length_score = n.pcb.job_length_score - 1 })
      else return tt)
  decrement_loop k n.next

pub ready_queue_decrement_job_length_score : ℕ → Cmd (Unit {0})
unfolding decrement_loop
ready_queue_decrement_job_length_score fuel = do head ← get_head; decrement_loop fuel head

-- `while (cur != NULL && cur->next != toSwap) cur = cur->next;`
pub find_before : ℕ → Ptr → Ptr → Cmd Ptr
find_before zero to_swap cur = λ _. no_fuel
find_before (suc k) to_swap cur =
    if cur == null
    then return cur
    else do n ← load cur; if n.next == to_swap then return cur else find_before k to_swap n.next

-- The first part, where the node to swap is the head: `head->next = next->next; next->next = head;
-- head = next;`
swap_head : Ptr → Cmd (Unit {0})
swap_head head = do
  first ← load head
  next ← load first.next
  set_next head next.next
  set_next first.next head
  set_head first.next

pub ready_queue_swap_with_next : ℕ → Ptr → Cmd (Unit {0})
unfolding find_before swap_head
ready_queue_swap_with_next fuel to_swap = do
  head ← get_head
  (if head == to_swap then swap_head head else return tt)
  cur ← find_before fuel to_swap head
  if cur == null then return tt else (do
    c ← load cur
    target ← load c.next
    next ← load target.next
    set_next cur target.next
    set_next target.next to_swap
    set_next to_swap next.next)

-- The test of `swap_needed` on the blocks of a node and its successor: jobs with priority go
-- first, and shorter jobs among those of one kind.
unfoldable pub before_next : Pcb → Pcb → Bool
before_next a b =
    if a.priority && b.priority
    then ltb b.job_length_score a.job_length_score
    else if a.priority && not b.priority
    then false
    else if not a.priority && b.priority
    then true
    else ltb b.job_length_score a.job_length_score

pub swap_needed : Ptr → Cmd Bool
unfolding before_next
swap_needed cur = do
  n ← load cur
  if n.next == null
      then return false
      else (do next ← load n.next; return (before_next n.pcb next.pcb))

-- One pass of the inner loop from `cur`; the result is where `cur` stops, and whether `sorted`
-- is still true.
sort_pass : ℕ → ℕ → Ptr → Bool → Cmd (Ptr × Bool)
sort_pass fuel zero cur sorted = λ _. no_fuel
sort_pass fuel (suc k) cur sorted = do
  n ← load cur
  if n.next == null then return (cur, sorted) else (do
    swap ← swap_needed cur
    if swap
        then (do ready_queue_swap_with_next fuel cur; sort_pass fuel k cur false)
        else sort_pass fuel k n.next sorted)

-- `while (!sorted) { sorted = true; … }`: the outer loop does not take `cur` back to the head.
sort_rounds : ℕ → ℕ → Ptr → Cmd (Unit {0})
sort_rounds fuel zero cur = λ _. no_fuel
sort_rounds fuel (suc k) cur = do
  (cur', sorted) ← sort_pass fuel fuel cur true
  if sorted then return tt else sort_rounds fuel k cur'

pub sort_ready_queue : ℕ → Cmd (Unit {0})
sort_ready_queue fuel = do
  head ← get_head
  if head == null then return tt else sort_rounds fuel fuel head

pub ready_queue_pop_shortest_job : ℕ → Cmd Ptr
ready_queue_pop_shortest_job fuel = do sort_ready_queue fuel; ready_queue_pop_head

shortest_loop : ℕ → Ptr → ℕ → Cmd ℕ
shortest_loop zero cur shortest = λ _. no_fuel
shortest_loop (suc k) cur shortest = if cur == null then return shortest else do
  n ← load cur
  shortest_loop k n.next
      (if ltb (n.pcb.job_length_score) shortest then n.pcb.job_length_score else shortest)

pub ready_queue_get_shortest_job_score : ℕ → Cmd ℕ
unfolding shortest_loop
ready_queue_get_shortest_job_score fuel = do head ← get_head; shortest_loop fuel head max_int

-- `while (cur->next != NULL) { if (cur->next->pcb->job_length_score == score) break; cur = cur->next; }`
pub find_score : ℕ → ℕ → Ptr → Cmd Ptr
find_score zero score cur = λ _. no_fuel
find_score (suc k) score cur = do
  n ← load cur
  if n.next == null then return cur else (do
    next ← load n.next
    if next.pcb.job_length_score == score then return cur else find_score k score n.next)

-- `ready_queue_promote`; the score is read at the head even if the queue is empty.
pub ready_queue_promote : ℕ → ℕ → Cmd (Unit {0})
unfolding find_score
ready_queue_promote fuel score = do
  head ← get_head
  first ← load head
  if first.pcb.job_length_score == score then return tt else (do
    cur ← find_score fuel score head
    c ← load cur
    if c.next == null then return tt else (do
      next ← load c.next
      if next.pcb.job_length_score == score
          then (do set_next cur next.next; set_next c.next head; set_head c.next)
          else return tt))
