-- ===== src/A3/Shell/Tests.antt =====
-- Lines of the third shell with a command that notes its words, and with one that runs a script.
use comp310_w.Prelude.{if◌then◌else◌, List, [], ◌∷◌, Str, codes, str_eq, ◌≡◌, refl, arith}
use comp310_w.Prelude.Int.{ℤ, pos, negsuc}
use comp310_w.Prelude.Span.{take_until, drop_until, skip_spaces}
use comp310_w.A3.Shell.{
  Parsed, returned, overflow, no_fuel, skip_semicolons, strtok, words_from, words_of, Program,
  parse_tokens, parse_input,
}
use comp310_w.A3.Shell.Words.{Command}
use comp310_w.A3.Shell.Lines.{run_line, plain, Ends, parse_input-run_line, parse_input_nested}
use comp310_w.Prelude.{ℕ, ◌+◌, Option, some, ap}
use comp310_w.Prelude.Stream.{fgets, take_line, c_string}
use comp310_w.Prelude.Scan.{first_from}
use comp310_w.A3.Memory.{Cell, blank, free_run, frame_alloc}
use comp310_w.A3.Pcb.{
  count_newlines, count_lines, page_table_size, put_line, read_lines, load_page, init_pages,
  new_pages, pcb_init, free_pcb, pcb_done, done_from,
}
use comp310_w.A3.List.{Outcome, done, exited, crashed, bind}
use comp310_w.A3.List.Values.{remove_first}
use comp310_w.A3.Kernel.{
  Machine, kernel_setup, open_page, cache_pages, cpu_run, load, make_present, run_proc, run_next,
  second_line, turn_from, run_proc_rr, new_proc, queue_done_from, free_all,
}

-- The commands that have run, the last one first; `quit` returns -1.
abbrev note : List Str → List (List Str) → ℤ × List (List Str)
note [] t = (pos 6, t)
note (w ∷ ws) t = if str_eq w (codes "quit") then (negsuc 0, t) else (pos 0, (w ∷ ws) ∷ t)

abbrev start : Program (List (List Str))
start = record { saved = []; rest = [] }

abbrev set_x : Command
set_x = record { blanks = 0; name = codes "set"; args = codes "x" ∷ codes "5" ∷ [] }

abbrev print_x : Command
print_x = record { blanks = 1; name = codes "print"; args = codes "x" ∷ [] }

abbrev run_it : Command
run_it = record { blanks = 0; name = codes "run"; args = codes "s" ∷ [] }

-- An empty token is passed over, two blanks make an empty word, and one at the end makes none.
tokens_read :
    parse_input (plain note) 5 (codes ";; a  b ;quit;c") start
    ≡ returned (negsuc 0) (record { saved = []; rest = (codes "a" ∷ [] ∷ codes "b" ∷ []) ∷ [] })
unfolding parse_input parse_tokens words_of words_from skip_spaces strtok skip_semicolons take_until
    drop_until str_eq
tokens_read = refl

parse_input-run_line_example :
    Ends note
      (parse_input (plain note) 3 (codes "set x 5; print x") start)
      (run_line note set_x (print_x ∷ []) [])
parse_input-run_line_example =
    parse_input-run_line note set_x (print_x ∷ []) 3 start
      (
        (((refl, (refl, (refl, tt))), ((refl, tt), ((refl, tt), tt))), omega arith),
        ((((refl, (refl, (refl, (refl, (refl, tt))))), ((refl, tt), tt)), omega arith), tt),
      )
      (omega arith)

-- The commands of a script: `help` prints, and all others end the shell.
abbrev leaf : List Str → Program (List Cell) → ℤ × Program (List Cell)
leaf [] s = (negsuc 0, s)
leaf (w ∷ ws) s = if str_eq w (codes "help") then (pos 0, s) else (negsuc 0, s)

abbrev of_parsed : Str → List Cell → Parsed (List Cell) → ℤ × (List Cell × Str)
of_parsed saved cells (returned code s) = (code, (s.rest, s.saved))
of_parsed saved cells overflow = (negsuc 0, (cells, saved))
of_parsed saved cells no_fuel = (negsuc 0, (cells, saved))

-- `parseInput` on a line of a script; the world of the kernel is what `strtok` keeps.
abbrev parse : Str → List Cell × Str → ℤ × (List Cell × Str)
parse text (cells, saved) =
    of_parsed saved cells (parse_input leaf 3 text (record { saved = saved; rest = cells }))

abbrev pid_name : ℕ → Str
pid_name n = (48 + n) ∷ []

abbrev script : Str → Str → Option Str
script name saved = some (codes "help")

abbrev after_run : Program (Machine Str) → Outcome (Machine Str) → ℤ × Program (Machine Str)
after_run s (done m) = (pos 0, record { saved = m.world; rest = m })
after_run s exited = (negsuc 0, s)
after_run s crashed = (negsuc 0, s)
after_run s out_of_fuel = (negsuc 0, s)

-- `run` makes a process of the script and runs it in the kernel to its end.
abbrev shell : List Str → Program (Machine Str) → ℤ × Program (Machine Str)
shell [] s = (pos 6, s)
shell (w ∷ ws) s =
    let m : Machine Str = record (s.rest) { world = s.saved } in
    if str_eq w (codes "run")
    then after_run s (
        bind (new_proc 6 1 parse pid_name script (codes "s") m)
          (run_proc_rr 6 1 parse pid_name script 3))
    else (pos 0, s)

abbrev cells : List Cell
cells = blank ∷ blank ∷ blank ∷ blank ∷ blank ∷ blank ∷ blank ∷ []

abbrev idle : Program (Machine Str)
idle = record { saved = []; rest = kernel_setup cells [] }

abbrev left_by_run : ℤ × Program (Machine Str)
left_by_run = shell (codes "run" ∷ codes "s" ∷ []) (record idle { saved = codes " print x" })

help_line :
    parse_input leaf 3 (codes "help") (record { saved = codes " print x"; rest = cells })
    ≡ returned (pos 0) (record { saved = []; rest = cells })
unfolding parse_input parse_tokens words_of words_from skip_spaces strtok skip_semicolons take_until
    drop_until str_eq
help_line = refl

run_returns :
    (left_by_run.0 ≡ pos 0) × (left_by_run.1.saved ≡ []) × (left_by_run.1.rest.pid_counter ≡ 2)
unfolding parse_input parse_tokens words_of words_from skip_spaces strtok skip_semicolons take_until
    drop_until str_eq new_proc pcb_init init_pages new_pages load_page read_lines put_line
    count_lines count_newlines page_table_size frame_alloc free_run first_from fgets take_line
    c_string cache_pages turn_from run_next run_proc cpu_run make_present load second_line open_page
    run_proc_rr queue_done_from free_all free_pcb remove_first pcb_done done_from
run_returns = (refl, refl, refl)

parse_input_nested_example :
    parse_input shell 2 (codes "run s; print x") idle ≡ returned (pos 0) (left_by_run.1)
parse_input_nested_example =
    parse_input_nested shell leaf run_it (codes " print x") 2 3 idle (left_by_run.1) (codes "help")
      (record { saved = codes " print x"; rest = cells }) (record { saved = []; rest = cells })
      (pos 0) (pos 0) (((refl, (refl, (refl, tt))), ((refl, tt), tt)), omega arith) (omega arith)
      help_line refl (ap (λ code. (code, left_by_run.1)) (run_returns.0)) (run_returns.1) refl
