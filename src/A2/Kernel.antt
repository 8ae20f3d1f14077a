-- ===== src/A2/Kernel.antt =====
-- Creating, running and scheduling processes (a2/kernel.c).
use comp310_w.Prelude.{
  ℕ, zero, suc, ◌+◌, ◌==◌, ltb, if◌then◌else◌, not, Bool, true, false, Option, none, some, List, [],
  ◌∷◌, ◌++◌, Str, str_eq, length,
}
use comp310_w.Prelude.Stream.{opened}
use comp310_w.A2.Pcb.{Pcb, make_pcb}
use comp310_w.A2.Store.{
  Ptr, null, node, Store, done, crash, no_fuel, Cmd, write, load, set_pcb, free,
}
use comp310_w.A2.ReadyQueue.{ready_queue_add_to_tail}
use comp310_w.A2.Memory.{Memory, unset}
use comp310_w.A2.Loader.{
  load_file, finished, out_of_table, out_of_fuel, aborted, loaded, no_space, no_lines, crashed,
  load_frame, removed, no_file, no_victim, remove_frame, null_line, out_of_array, line,
  mem_get_value_at_line,
}

-- What the kernel works on: the memory, the queue, the counter of process numbers, the flag that
-- lines come from a script, and the files. `backing` holds the copies "prog0", "prog1", … in
-- order; `files` is what `fopen` finds by name, the copies included.
pub record Machine : Type 0 where
  pub memory : Memory
  pub queue : Store
  pub pid_counter : ℕ
  pub in_background : Bool
  pub backing : List Str
  pub files : Str → Option Str

-- How a part of the kernel ends. `stuck` is a loop that has used up its fuel, and a command that
-- does not return.
pub data Run (A : Type 0) : Type 0 where
  ended : A → Machine → Run A
  fault : Run A
  stuck : Run A

infixl 5 ◌>>=◌ ◌>>◌
abbrev pub ◌>>=◌ : {A B : Type 0} → (Machine → Run A) → (A → Machine → Run B) → Machine → Run B
◌>>=◌ x f m = elim (x m) [ ended a m' ↦ f a m' | fault ↦ fault | stuck ↦ stuck ]

abbrev pub ◌>>◌ : {A B : Type 0} → (Machine → Run A) → (Machine → Run B) → Machine → Run B
◌>>◌ x y m = elim (x m) [ ended a m' ↦ y m' | fault ↦ fault | stuck ↦ stuck ]

abbrev pub return : {A : Type 0} → A → Machine → Run A
return a m = ended a m

abbrev pub get : Machine → Run Machine
get m = ended m m

abbrev pub put : (Machine → Machine) → Machine → Run (Unit {0})
put f m = ended tt (f m)

-- A command of the ready queue.
abbrev pub queue_do : {A : Type 0} → Cmd A → Machine → Run A
queue_do c m = elim (c m.queue) [
  | done a s ↦ ended a (record m { queue = s })
  | crash ↦ fault
  | no_fuel ↦ stuck
]

-- The codes of `enum Error` (a2/interpreter.h) that the kernel returns.
abbrev pub file_does_not_exist : ℕ
file_does_not_exist = 1

abbrev pub file_error : ℕ
file_error = 2

abbrev pub scheduling_error : ℕ
scheduling_error = 5

-- `active` is false and nothing sets it.
abbrev pub active : Bool
active = false

-- Sizes of the memory, what the C library prints for `backing_store/prog%d`, and `parseInput` on a
-- line of a script, which may run any command; `none` is a command that does not return.
module _ (frame_store_size var_store_size : ℕ) (prog_name : ℕ → Str)
    (parse_line : Str → Machine → Option Machine) where
  -- `process_initialize`; `fresh` is the address that `malloc` returns for the node. Loading
  -- takes at most three rounds.
  unfoldable pub process_initialize : ℕ → Ptr → Str → Machine → Run ℕ
  process_initialize fuel fresh filename m = elim (m.files filename) [
    | none ↦ ended file_does_not_exist m
    | some content ↦
        let count = length m.backing in
        let name = prog_name count in
        let with_copy : Str → Option Str = λ f. if str_eq f name then some content else m.files f in
        let (new_pcb, counter) = make_pcb m.pid_counter in
        let copied : Machine = record m {
          backing = m.backing ++ content ∷ [];
          files = with_copy;
          pid_counter = counter;
        } in
        elim (load_file frame_store_size var_store_size 4 (opened content) 1 new_pcb name
          m.memory) [
            | out_of_fuel ↦ stuck
            | out_of_table ↦ fault
            | finished l ↦
                let kept : Machine = record copied { memory = l.memory } in
                let cells = write m.queue.cells fresh (some (node l.pcb null)) in
                let placed : Machine = record kept { queue = record (m.queue) { cells = cells } } in
                if not (l.error_code == 0)
                then ended file_error kept
                else (do queue_do (ready_queue_add_to_tail fuel fresh); return 0) placed
          ]
  ]

  -- A page fault in `execute_process`: true if the process is finished. The codes of the second
  -- pair of calls are not looked at.
  unfoldable pub page_fault : Ptr → Machine → Run Bool
  page_fault cur m = elim (load cur m.queue) [
    | crash ↦ fault
    | no_fuel ↦ stuck
    | done n _ ↦
        let store_pcb = λ (p : Pcb) (mem : Memory).
          (do queue_do (set_pcb cur p); return false) (record m { memory = mem }) in
        elim (load_frame frame_store_size var_store_size m.files n.pcb m.memory) [
          | crashed ↦ fault
          | no_lines ↦ (do queue_do (free cur); return true) (record m { in_background = false })
          | loaded mem p ↦ store_pcb p mem
          | no_space ↦ elim (remove_frame frame_store_size var_store_size m.files n.pcb m.memory) [
            | no_victim ↦ fault
            | aborted ↦ fault
            | no_file ↦ elim (load_frame frame_store_size var_store_size m.files n.pcb m.memory) [
              | crashed ↦ fault
              | loaded mem p ↦ store_pcb p mem
              | _ ↦ return false m
            ]
            | removed out mem p ↦ elim (load_frame frame_store_size var_store_size m.files p mem) [
              | crashed ↦ fault
              | loaded mem' p' ↦ store_pcb p' mem'
              | _ ↦ store_pcb p mem
            ]
          ]
        ]
  ]

  -- The end of one turn: the next line, or the first line of the next page.
  abbrev pub next_line : Pcb → Pcb
  next_line p =
      if p.current_line == 2
      then record p { current_page = p.current_page + 1; current_line = 0 }
      else record p { current_line = p.current_line + 1 }

  -- `parseInput` on the line of a script.
  abbrev run_line : Str → Machine → Run (Unit {0})
  run_line text m = elim (parse_line text m) [ none ↦ stuck | some m' ↦ ended tt m' ]

  set_background : Bool → Machine → Run (Unit {0})
  set_background b m = ended tt (record m { in_background = b })

  -- One turn on a line in memory: true if the process is finished. `PC` moves before the read.
  unfoldable pub execute_line : Ptr → Machine → Run Bool
  unfolding set_background
  execute_line cur m = elim (load cur m.queue) [
    | crash ↦ fault
    | no_fuel ↦ stuck
    | done n _ ↦
        let moved : Pcb = record (n.pcb) { pc = n.pcb.pc + 1; priority = false } in
        elim (mem_get_value_at_line frame_store_size var_store_size n.pcb.pc m.memory) [
          | null_line ↦ fault
          | out_of_array ↦ fault
          | line text mem ↦
              (do
                queue_do (set_pcb cur moved)
                (if str_eq text unset
                    then (do set_background false; queue_do (free cur); return true)
                    else (do
                      set_background true
                      run_line text
                      set_background false
                      after ← queue_do (load cur)
                      queue_do (set_pcb cur (next_line (after.pcb)))
                      return false)))
                (record m { memory = mem })
        ]
  ]

  -- `execute_process`, with the turns that are left: true if the process is finished.
  unfoldable pub execute_process : Ptr → ℕ → Machine → Run Bool
  execute_process cur zero m = ended false m
  execute_process cur (suc i) m = elim (load cur m.queue) [
    | crash ↦ fault
    | no_fuel ↦ stuck
    | done n _ ↦
        if ltb (n.pcb.page_counter) (n.pcb.current_page)
        then page_fault cur m
        else (do over ← execute_line cur; if over then return true else execute_process cur i) m
  ]
