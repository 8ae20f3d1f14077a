-- ===== src/A2/Tests.antt =====
-- The theorems about the second assignment at concrete queues and memories.
pub mod Paging
mod Scheduling
mod Commands
use mathlib.Core.List.{Perm}
use comp310_w.Prelude.{
  ℕ, ◌≤◌, ◌==◌, ◌≡◌, refl, if◌then◌else◌, ◌⊎◌, none, some, [], ◌∷◌, ◌++◌, arith,
}
use comp310_w.A2.Pcb.{Pcb, make_pcb}
use comp310_w.A2.Store.{Ptr, node, Cells, Store, done}
use comp310_w.A2.Store.Chain.{Nodes, IsQueue, Ends}
use comp310_w.A2.ReadyQueue.{
  max_int, ready_queue_add_to_tail, ready_queue_add_to_head, ready_queue_pop_head,
  ready_queue_swap_with_next, sort_ready_queue, ready_queue_pop_shortest_job, ready_queue_promote,
  ready_queue_decrement_job_length_score, ready_queue_get_shortest_job_score,
}
use comp310_w.A2.ReadyQueue.Ends.{
  ready_queue_add_to_tail-append, ready_queue_add_to_head-cons, ready_queue_pop_head-cons,
}
use comp310_w.A2.ReadyQueue.Swap.{ready_queue_swap_with_next-swap}
use comp310_w.A2.ReadyQueue.Order.{
  AfterAll, sort_ready_queue-perm, sort_ready_queue-last, sort_ready_queue-InOrder,
  pop_shortest_job-falling,
}
use comp310_w.A2.ReadyQueue.Scores.{
  NoneBelow, Scored, ready_queue_decrement_job_length_score-IsQueue, shortest_job_score-least,
}
use comp310_w.A2.ReadyQueue.Promote.{ready_queue_promote-none, ready_queue_promote-first}

-- A process with a score.
abbrev job : ℕ → Pcb
job score = record ((make_pcb 1).0) { job_length_score = score }

-- Nodes 1, 2 and 3 with the scores 30, 20 and 10, and node 4, which is in no queue.
abbrev cells : Cells
cells p =
    if p == 1
    then some (node (job 30) 2)
    else if p == 2
    then some (node (job 20) 3)
    else if p == 3
    then some (node (job 10) 0)
    else if p == 4
    then some (node (job 5) 7)
    else none

abbrev three : Nodes
three = (1, job 30) ∷ (2, job 20) ∷ (3, job 10) ∷ []

abbrev falling : Store
falling = record { head = 1; cells = cells }

falling-IsQueue : IsQueue falling three
falling-IsQueue = record {
  start = refl;
  linked = (omega arith, refl, (omega arith, refl, (omega arith, refl, tt)));
  distinct = (refl, (refl, (refl, tt)));
}

ready_queue_swap_with_next-swap_example :
    Ends
      (λ _ t. IsQueue t ((1, job 30) ∷ (3, job 10) ∷ (2, job 20) ∷ []))
      (ready_queue_swap_with_next 4 2 falling)
ready_queue_swap_with_next-swap_example =
    ready_queue_swap_with_next-swap 4 falling ((1, job 30) ∷ []) 2 3 (job 20) (job 10) []
      falling-IsQueue (omega arith)

sort_ready_queue-perm_example :
    Ends (λ _ t. (ys : Nodes) × IsQueue t ys × Perm ys three) (sort_ready_queue 5 falling)
sort_ready_queue-perm_example = sort_ready_queue-perm 5 falling three falling-IsQueue (omega arith)

sort_ready_queue-last_example :
    Ends
      (λ _ t. (f : Nodes) × (m : Ptr × Pcb) × IsQueue t (f ++ m ∷ []) × AfterAll (m.1) f)
      (sort_ready_queue 5 falling)
sort_ready_queue-last_example =
    sort_ready_queue-last 5 falling (1, job 30) ((2, job 20) ∷ (3, job 10) ∷ []) falling-IsQueue
      (omega arith)

pop_shortest_job-falling_example :
    Ends
      (λ x t. (x ≡ 2) × IsQueue t ((3, job 10) ∷ (1, job 30) ∷ []))
      (ready_queue_pop_shortest_job 5 falling)
pop_shortest_job-falling_example =
    pop_shortest_job-falling 5 falling 1 2 3 (job 30) (job 20) (job 10) falling-IsQueue
      (omega arith) refl refl refl (omega arith) (omega arith)

ready_queue_promote-first_example :
    Ends
      (λ _ t. IsQueue t ((3, job 10) ∷ (1, job 30) ∷ (2, job 20) ∷ []))
      (ready_queue_promote 4 10 falling)
ready_queue_promote-first_example =
    ready_queue_promote-first 4 10 falling ((1, job 30) ∷ []) 2 3 (job 20) (job 10) []
      falling-IsQueue (omega arith) refl (omega arith)
