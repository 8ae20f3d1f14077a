-- ===== src/A2/Pcb.antt =====
-- Process control blocks of the second assignment (a2/pcb.h, a2/pcb.c).
use comp310_w.Prelude.{ℕ, ◌+◌, ◌-◌, Option, none, List, Bool, false, Str, replicate}
use comp310_w.Prelude.Int.{ℤ, pos}

abbrev pub max_pages : ℕ
max_pages = 10

-- `PCB`. `file` is the address of a stream that no code reads through this field; 0 is the null
-- pointer.
pub record Pcb : Type 0 where
  pub priority : Bool
  pub current_page : ℕ
  pub pid : ℕ
  pub pc : ℕ
  pub start : ℕ
  pub end : ℤ
  pub job_length_score : ℕ
  pub page_counter : ℕ
  pub current_line : ℕ
  pub filename : Option Str
  pub page_table : List Bool
  pub file : ℕ

-- `generatePID`, over the counter `pid_counter`: the number given out, and the counter behind it.
abbrev pub generate_pid : ℕ → ℕ × ℕ
generate_pid pid_counter = (pid_counter, pid_counter + 1)

-- `makePCB`: the block and the counter behind it. The score is `1 + end - start` of the two zeros.
abbrev pub make_pcb : ℕ → Pcb × ℕ
make_pcb pid_counter =
    let (pid, counter) = generate_pid pid_counter in
    (
      record {
        priority = false;
        current_page = 1;
        pid = pid;
        pc = 0;
        start = 0;
        end = pos 0;
        job_length_score = 1 + 0 - 0;
        page_counter = 0;
        current_line = 0;
        filename = none;
        page_table = replicate max_pages false;
        file = 0;
      },
      counter,
    )
