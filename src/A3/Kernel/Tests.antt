-- ===== src/A3/Kernel/Tests.antt =====
-- A script of one line with a newline at its end, on a memory of six lines and one variable.
use comp310_w.Prelude.{
  ℕ, ◌+◌, Option, some, List, [], ◌∷◌, Str, codes, str_eq, ◌≡◌, ◌≢◌, refl, arith,
}
use comp310_w.Prelude.Int.{ℤ, pos}
use comp310_w.Prelude.Stream.{fgets, take_line, c_string}
use comp310_w.Prelude.Scan.{first_from}
use comp310_w.A3.Memory.{Cell, blank, free_run, frame_alloc}
use comp310_w.A3.Pcb.{
  count_newlines, count_lines, page_table_size, put_line, read_lines, load_page, init_pages,
  new_pages, pcb_init,
}
use comp310_w.A3.List.{Outcome, done, exited, crashed, no_fuel}
use comp310_w.A3.Kernel.{
  Machine, kernel_setup, open_page, pcb_at, cache_pages, cpu_run, load, make_present, run_proc,
  run_next, second_line, turn_from, turn, run_proc_rr, new_proc,
}
use comp310_w.A3.Kernel.Turns.{Post, faults, next_page, Turned, turn-queue}
use comp310_w.A3.Kernel.Endless.{StuckMachine, run_proc_rr-endless}

-- The world is a count of the lines that have run.
abbrev parse : Str → List Cell × ℕ → ℤ × (List Cell × ℕ)
parse line (m, n) = (pos 0, (m, n + 1))

abbrev pid_name : ℕ → Str
pid_name n = (48 + n) ∷ []

abbrev script : Str → ℕ → Option Str
script name n = some (codes "help\n")

abbrev or_machine : Machine ℕ → Outcome (Machine ℕ) → Machine ℕ
or_machine d (done m) = m
or_machine d exited = d
or_machine d crashed = d
or_machine d no_fuel = d

abbrev start : Machine ℕ
start = kernel_setup (blank ∷ blank ∷ blank ∷ blank ∷ blank ∷ blank ∷ blank ∷ []) 0

abbrev created : Machine ℕ
created = or_machine start (new_proc 6 1 parse pid_name script (codes "s") start)

-- The one line has run, and another one is looked for.
abbrev turned : Machine ℕ
turned = or_machine start (turn 6 1 parse pid_name script created)

lines_run : turned.world ≡ 1
unfolding new_proc pcb_init init_pages new_pages load_page read_lines put_line count_lines
    count_newlines page_table_size frame_alloc free_run first_from fgets take_line c_string str_eq
    cache_pages turn_from run_next run_proc cpu_run make_present load second_line open_page
lines_run = refl

turned-StuckMachine : StuckMachine 6 1 parse pid_name script 0 turned
unfolding new_proc pcb_init init_pages new_pages load_page read_lines put_line count_lines
    count_newlines page_table_size frame_alloc free_run first_from fgets take_line c_string str_eq
    cache_pages turn_from run_next run_proc cpu_run make_present load second_line open_page
turned-StuckMachine =
    (refl, record { size = refl; at_end = refl; inside = omega arith; invalid = refl })

run_proc_rr-endless_example : run_proc_rr 6 1 parse pid_name script 1000 turned ≢ done start
run_proc_rr-endless_example =
    run_proc_rr-endless 6 1 parse pid_name script 0 1000 turned start turned-StuckMachine

created_queue : created.queue ≡ 0 ∷ []
unfolding new_proc pcb_init init_pages new_pages load_page read_lines put_line count_lines
    count_newlines page_table_size frame_alloc free_run first_from fgets take_line c_string str_eq
    cache_pages
created_queue = refl

turn-queue_example :
    Post
      (Turned 6 1 parse pid_name script 0 [] (pcb_at 0 created).size (
        faults 6 1 parse pid_name script 0 (next_page 6 1 parse pid_name script 0 created) created))
      (turn 6 1 parse pid_name script created)
turn-queue_example = turn-queue 6 1 parse pid_name script created 0 [] created_queue
