-- ===== src/A2/Tests/Scheduling.antt =====
-- The theorems about the schedulers of the second assignment on a machine with two processes, the
-- first of which needs its third page.
use comp310_w.Prelude.{
  ℕ, ◌≡◌, refl, ◌==◌, if◌then◌else◌, false, Option, none, some, [], ◌∷◌, Str, codes, str_eq, arith,
}
use comp310_w.Prelude.Scan.{first_from}
use comp310_w.Prelude.Stream.{fgets, take_line, c_string}
use comp310_w.A2.Pcb.{Pcb}
use comp310_w.A2.Store.{node, Cells}
use comp310_w.A2.Store.Chain.{Nodes, IsQueue}
use comp310_w.A2.Memory.{Memory, find_available_slot, free_frame}
use comp310_w.A2.Loader.{loaded, load_frame, skip_lines, fill_frame, mark_page}
use comp310_w.A2.Kernel.{Machine}
use comp310_w.A2.ReadyQueue.{before_next}
use comp310_w.A2.Scheduler.{schedule_by_policy}
use comp310_w.A2.Scheduler.Laws.{Scheduled, schedule_by_policy-Scheduled}
use comp310_w.A2.Tests.Paging.{half, files, waiting}

abbrev third_page : Pcb
third_page = record waiting { current_page = 3 }

abbrev cells : Cells
cells p =
    if p == 1 then some (node third_page 2) else if p == 2 then some (node waiting 0) else none

abbrev two : Nodes
two = (1, third_page) ∷ (2, waiting) ∷ []

abbrev machine : Machine
machine = record {
  memory = half;
  queue = record { head = 1; cells = cells };
  pid_counter = 3;
  in_background = false;
  backing = [];
  files = files;
}

abbrev same_name : ℕ → Str
same_name n = codes "prog"

-- A command that changes nothing.
abbrev skip : Str → Machine → Option Machine
skip text m = some m

two-IsQueue : IsQueue (machine.queue) two
two-IsQueue = record {
  start = refl;
  linked = (omega arith, refl, (omega arith, refl, tt));
  distinct = (refl, (refl, tt));
}

page_loaded : (mem : Memory) × (p : Pcb) × (load_frame 6 2 files third_page half ≡ loaded mem p)
unfolding load_frame skip_lines fgets take_line find_available_slot first_from free_frame fill_frame
    c_string str_eq mark_page
page_loaded = (_, _, refl)

schedule_by_policy-Scheduled_example :
    Scheduled (codes "RR") machine (schedule_by_policy 6 2 same_name skip 9 9 (codes "RR") machine)
schedule_by_policy-Scheduled_example =
    schedule_by_policy-Scheduled 6 2 same_name skip 9 9 (codes "RR") machine

in_order : before_next third_page waiting ≡ false
unfolding before_next
in_order = refl
