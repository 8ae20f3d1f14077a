-- ===== src/A2/Scheduler/Faults.antt =====
-- What a page fault does to the queue: RR and FCFS put the process back, SJF loses it
-- (a2/kernel.c).
use comp310_w.Prelude.{
  ℕ, suc, ◌+◌, ◌<◌, ◌≡◌, refl, ◌≢◌, ltb, if◌then◌else◌, true, false, Option, some, [], ◌∷◌, ◌++◌,
  Str, arith, length,
}
use comp310_w.A2.Pcb.{Pcb}
use comp310_w.A2.Memory.{Memory}
use comp310_w.A2.Loader.{loaded, load_frame}
use comp310_w.A2.Store.{Ptr, null, QueueNode, node, Store, done, write}
use comp310_w.A2.Store.Chain.{
  Nodes, first, has, IsQueue, Linked-write, load-done, set_pcb-done, write_self, result_of_Ends,
}
use comp310_w.A2.ReadyQueue.{
  max_int, ready_queue_pop_head, ready_queue_pop_shortest_job, ready_queue_add_to_tail,
}
use comp310_w.A2.ReadyQueue.Ends.{ready_queue_pop_head-cons, ready_queue_add_to_tail-append}
use comp310_w.A2.ReadyQueue.Order.{InOrder, pop_shortest_job-InOrder}
use comp310_w.A2.Kernel.{Machine, ended, ◌>>=◌, ◌>>◌, queue_do, page_fault, execute_process}
use comp310_w.A2.Scheduler.{turn_rr, turn_sjf}

-- A write to a node that is not in a queue leaves the queue.
write-IsQueue :
    (s : Store) (a : Ptr) (n : QueueNode) (xs : Nodes)
    → IsQueue s xs
    → has a xs ≡ false
    → IsQueue (record s { cells = write s.cells a (some n) }) xs
write-IsQueue s a n xs is out = record {
  start = is.start;
  linked = Linked-write s.cells null a (some n) xs is.linked out;
  distinct = is.distinct;
}

module _ (F V : ℕ) (prog_name : ℕ → Str) (parse_line : Str → Machine → Option Machine) where
  -- A page fault that finds a free frame: memory and block change, the queue does not.
  execute_process-loaded :
      (m : Machine) (a : Ptr) (n : QueueNode) (quanta : ℕ) (mem : Memory) (p : Pcb)
      → m.queue.cells a ≡ some n
      → a ≢ null
      → n.pcb.page_counter < n.pcb.current_page
      → load_frame F V m.files n.pcb m.memory ≡ loaded mem p
      → execute_process F V prog_name parse_line a (suc quanta) m
        ≡ ended false (record m {
          memory = mem;
          queue = record (m.queue) { cells = write m.queue.cells a (some (record n { pcb = p })) };
        })
  unfolding execute_process page_fault
  execute_process-loaded m a n quanta mem p there ne behind load =
      let late : ltb (n.pcb.page_counter) (n.pcb.current_page) ≡ true = ground arith in
      rw (
        execute_process,
        load-done a n m.queue there ne,
        late,
        page_fault,
        load-done a n m.queue there ne,
        load,
        ◌>>◌,
        queue_do,
        set_pcb-done a n m.queue there ne p,
      )

  -- The three calls of a turn, each with its result.
  turn_rr-ended :
      (fuel quanta : ℕ) (m m1 : Machine) (a q : Ptr) (t s' : Store)
      → ready_queue_pop_head m.queue ≡ done q t
      → q ≡ a
      → execute_process F V prog_name parse_line a (suc quanta) (record m { queue = t })
        ≡ ended false m1
      → ready_queue_add_to_tail fuel a m1.queue ≡ done tt s'
      → turn_rr F V prog_name parse_line fuel (suc quanta) m ≡ ended tt (record m1 { queue = s' })
  unfolding turn_rr
  turn_rr-ended fuel quanta m m1 a q t s' popped same ran added =
      rw (turn_rr, ◌>>=◌, queue_do, popped, same, ran, if◌then◌else◌, queue_do, same, added)

  -- One turn of RR, or of FCFS, on a queue whose first process needs a page that is not loaded: the
  -- page is loaded, and the process waits behind all the others with its new block.
  pub turn_rr-page_fault :
      (fuel quanta : ℕ) (m : Machine) (a : Ptr) (b : Pcb) (rest : Nodes) (mem : Memory) (p : Pcb)
      → IsQueue m.queue ((a, b) ∷ rest)
      → b.page_counter < b.current_page
      → load_frame F V m.files b m.memory ≡ loaded mem p
      → length rest < fuel
      → (m' : Machine) × (turn_rr F V prog_name parse_line fuel (suc quanta) m ≡ ended tt m')
        × (m'.memory ≡ mem)
        × IsQueue m'.queue (rest ++ (a, p) ∷ [])
  turn_rr-page_fault fuel quanta m a b rest mem p is behind load enough =
      let (q, t, popped, (same, is', cells)) =
        result_of_Ends (ready_queue_pop_head-cons m.queue a b rest is) in
      let there : t.cells a ≡ some (node b (first rest null)) = rw cells (is.linked.1) in
      let m1 : Machine = record m { queue = t } in
      let ne : a ≢ null = is.linked.0 in
      let out : has a rest ≡ false = is.distinct.0 in
      let ran =
        execute_process-loaded m1 a (node b (first rest null)) quanta mem p there ne behind load in
      let s : Store = record t { cells = write t.cells a (some (node p (first rest null))) } in
      let (u, s', added, is'') = result_of_Ends (
        ready_queue_add_to_tail-append s a (node p (first rest null)) (write_self t.cells a _) ne
          fuel rest (write-IsQueue t a _ rest is' out) out enough) in
      (
        record m { memory = mem; queue = s' },
        turn_rr-ended fuel quanta m (record m { memory = mem; queue = s }) a q t s' popped same ran
            added,
        refl,
        is'',
      )

  -- The two calls of a turn of SJF.
  turn_sjf-ended :
      (fuel : ℕ) (m m1 : Machine) (a q : Ptr) (t : Store)
      → ready_queue_pop_shortest_job fuel m.queue ≡ done q t
      → q ≡ a
      → execute_process F V prog_name parse_line a max_int (record m { queue = t }) ≡ ended false m1
      → turn_sjf F V prog_name parse_line fuel m ≡ ended tt m1
  unfolding turn_sjf
  turn_sjf-ended fuel m m1 a q t popped same ran =
      rw (turn_sjf, ◌>>=◌, queue_do, popped, same, ◌>>◌, ran)

  -- One turn of SJF on a queue in order whose first process needs a page that is not loaded:
  -- the page is loaded, but the process is in the queue no longer, so that it never runs again.
  pub turn_sjf-page_fault :
      (fuel : ℕ) (m : Machine) (a : Ptr) (b : Pcb) (rest : Nodes) (mem : Memory) (p : Pcb)
      → IsQueue m.queue ((a, b) ∷ rest)
      → InOrder ((a, b) ∷ rest)
      → b.page_counter < b.current_page
      → load_frame F V m.files b m.memory ≡ loaded mem p
      → length rest + 2 < fuel
      → (m' : Machine) × (turn_sjf F V prog_name parse_line fuel m ≡ ended tt m')
        × (m'.memory ≡ mem)
        × IsQueue m'.queue rest
  turn_sjf-page_fault fuel m a b rest mem p is ordered behind load enough =
      let (q, t, popped, (same, is', there)) =
        result_of_Ends (pop_shortest_job-InOrder fuel m.queue a b rest is ordered enough) in
      let n = node b (first rest null) in
      let m1 : Machine = record m { queue = t } in
      let ran = execute_process-loaded m1 a n _ mem p there (is.linked.0) behind load in
      (
        _,
        turn_sjf-ended fuel m _ a q t popped same ran,
        refl,
        write-IsQueue t a _ rest is' (is.distinct.0),
      )
