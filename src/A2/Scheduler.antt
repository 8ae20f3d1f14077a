-- ===== src/A2/Scheduler.antt =====
-- The scheduling loops (a2/kernel.c). Each runs on fuel for its turns; `fuel` also serves the
-- loops over the ready queue.
pub mod Laws
pub mod Faults
use comp310_w.Prelude.{
  ℕ, zero, suc, ltb, if◌then◌else◌, ◌&&◌, not, Bool, true, false, Option, ◌==◌, Str, codes, str_eq,
}
use comp310_w.A2.Store.{Ptr, null, load}
use comp310_w.A2.ReadyQueue.{
  max_int, ready_queue_add_to_tail, ready_queue_add_to_head, ready_queue_pop_head, is_ready_empty,
  ready_queue_pop_shortest_job, ready_queue_decrement_job_length_score, sort_ready_queue,
  ready_queue_get_shortest_job_score, ready_queue_promote,
}
use comp310_w.A2.Kernel.{
  Machine, Run, ended, fault, stuck, ◌>>=◌, ◌>>◌, return, get, queue_do, active, scheduling_error,
  execute_process,
}

module _ (frame_store_size var_store_size : ℕ) (prog_name : ℕ → Str)
    (parse_line : Str → Machine → Option Machine) where
  abbrev execute : Ptr → ℕ → Machine → Run Bool
  execute cur quanta =
      execute_process frame_store_size var_store_size prog_name parse_line cur quanta

  -- `while (true) { if (is_ready_empty()) { if (active) continue; else break; } turn(); }`
  unfoldable pub while_ready : ℕ → (Machine → Run (Unit {0})) → Machine → Run (Unit {0})
  while_ready zero turn m = stuck
  while_ready (suc k) turn m =
      let again = while_ready k turn in
      (do
        empty ← queue_do is_ready_empty
        if empty then (if active then again else return tt) else (do turn; again))
        m

  -- One turn of `scheduler_FCFS` and of `scheduler_RR`: the process goes back to the tail.
  unfoldable pub turn_rr : ℕ → ℕ → Machine → Run (Unit {0})
  turn_rr fuel quanta = do
    cur ← queue_do ready_queue_pop_head
    over ← execute cur quanta
    if over then return tt else queue_do (ready_queue_add_to_tail fuel cur)

  unfoldable pub scheduler_fcfs : ℕ → ℕ → Machine → Run (Unit {0})
  scheduler_fcfs turns fuel = while_ready turns (turn_rr fuel max_int)

  unfoldable pub scheduler_rr : ℕ → ℕ → ℕ → Machine → Run (Unit {0})
  scheduler_rr turns fuel quanta = while_ready turns (turn_rr fuel quanta)

  -- One turn of `scheduler_SJF`: what `execute_process` returns is not looked at.
  unfoldable pub turn_sjf : ℕ → Machine → Run (Unit {0})
  turn_sjf fuel = do
    cur ← queue_do (ready_queue_pop_shortest_job fuel)
    execute cur max_int
    return tt

  unfoldable pub scheduler_sjf : ℕ → ℕ → Machine → Run (Unit {0})
  scheduler_sjf turns fuel = while_ready turns (turn_sjf fuel)

  unfoldable pub turn_aging_alternative : ℕ → Machine → Run (Unit {0})
  turn_aging_alternative fuel = do
    cur ← queue_do (ready_queue_pop_shortest_job fuel)
    queue_do (ready_queue_decrement_job_length_score fuel)
    over ← execute cur 1
    if over then return tt else queue_do (ready_queue_add_to_head cur)

  unfoldable pub scheduler_aging_alternative : ℕ → ℕ → Machine → Run (Unit {0})
  scheduler_aging_alternative turns fuel = while_ready turns (turn_aging_alternative fuel)

  -- The choice in `scheduler_AGING`: a shorter job than the head is promoted and taken.
  choose : ℕ → Ptr → ℕ → Machine → Run Ptr
  choose fuel cur shortest = do
    n ← queue_do (load cur)
    if ltb shortest (n.pcb.job_length_score)
        then (do
          queue_do (ready_queue_promote fuel shortest)
          queue_do (ready_queue_add_to_tail fuel cur)
          queue_do ready_queue_pop_head)
        else return cur

  unfoldable pub turn_aging : ℕ → Machine → Run (Unit {0})
  unfolding choose
  turn_aging fuel = do
    head ← queue_do ready_queue_pop_head
    shortest ← queue_do (ready_queue_get_shortest_job_score fuel)
    cur ← choose fuel head shortest
    queue_do (ready_queue_decrement_job_length_score fuel)
    over ← execute cur 1
    if over then return tt else queue_do (ready_queue_add_to_head cur)

  unfoldable pub scheduler_aging : ℕ → ℕ → Machine → Run (Unit {0})
  scheduler_aging turns fuel = do
    queue_do (sort_ready_queue fuel)
    while_ready turns (turn_aging fuel)

  -- `schedule_by_policy`: the tests in order.
  unfoldable pub schedule_by_policy : ℕ → ℕ → Str → Machine → Run ℕ
  schedule_by_policy turns fuel policy m =
      if not (str_eq policy (codes "FCFS"))
        && not (str_eq policy (codes "SJF"))
        && not (str_eq policy (codes "RR"))
        && not (str_eq policy (codes "AGING"))
        && not (str_eq policy (codes "RR30"))
      then ended scheduling_error m
      else if active
      then ended 0 m
      else if m.in_background
      then ended 0 m
      else if str_eq (codes "FCFS") policy
      then (do scheduler_fcfs turns fuel; return 0) m
      else if str_eq (codes "SJF") policy
      then (do scheduler_sjf turns fuel; return 0) m
      else if str_eq (codes "RR") policy
      then (do scheduler_rr turns fuel 2; return 0) m
      else if str_eq (codes "AGING") policy
      then (do scheduler_aging turns fuel; return 0) m
      else if str_eq (codes "RR30") policy
      then (do scheduler_rr turns fuel 30; return 0) m
      else ended 0 m
