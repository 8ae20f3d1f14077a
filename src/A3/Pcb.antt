-- ===== src/A3/Pcb.antt =====
-- Processes and their pages (a3/pcb.h, a3/pcb.c).
pub mod Loading
pub mod Counts
use comp310_w.Prelude.{
  ℕ, zero, suc, ◌+◌, ◌/◌, ◌%◌, ◌==◌, ltb, if◌then◌else◌, ◌&&◌, not, Bool, true, false, Option, none,
  some, List, [], ◌∷◌, Str, get_or, set, replicate,
}
use comp310_w.Prelude.Stream.{Stream, opened, fgets, c_string}
use comp310_w.A3.Memory.{
  Cell, Frame, frame_alloc, mem_set_value_at, mem_get_value_at, mem_free_at, clear_frame,
}

-- `struct PAGE`
pub record Page : Type 0 where
  pub index : List ℕ
  pub valid_bit : List ℕ
  pub page_index : ℕ
  pub page_pid : ℕ

-- `struct PCB`; the size counts down as the lines run.
pub record Pcb : Type 0 where
  pub pid : ℕ
  pub size : ℕ
  pub program_counter : List ℕ
  pub page_table : List Page
  pub page_table_size : ℕ
  pub source_file : Stream

abbrev pub lines_of_page : ℕ
lines_of_page = 3

-- The loop of `count_lines`: `last` is the byte before.
unfoldable pub count_newlines : ℕ → Str → ℕ
count_newlines last [] = 0
count_newlines last (c ∷ s) =
    let rest = count_newlines c s in if (c == 10) && not (last == 10) then rest + 1 else rest

-- `count_lines` on a file that is there.
unfoldable pub count_lines : Str → ℕ
count_lines content = count_newlines 10 content + 1

-- `PAGE_table_size`
unfoldable pub page_table_size : ℕ → ℕ
page_table_size lines = if lines % 3 == 0 then lines / 3 else lines / 3 + 1

-- `PAGE_init`
abbrev pub page_init : ℕ → ℕ → Page
page_init page_pid page_table_index = record {
  index = replicate 3 1000;
  valid_bit = replicate 3 0;
  page_index = page_table_index;
  page_pid = page_pid;
}

-- `PCB_done`: the loop over the program counters, from an index on.
unfoldable pub done_from : List ℕ → ℕ → ℕ → Bool
done_from counters i zero = true
done_from counters i (suc n) =
    let rest = done_from counters (i + 1) n in if get_or counters i 0 == 3 then rest else false

unfoldable pub pcb_done : Pcb → Bool
pcb_done pcb = done_from pcb.program_counter 0 pcb.page_table_size

-- `PCB_equal` and `PAGE_equal`
abbrev pub pcb_equal : Pcb → Pcb → Bool
pcb_equal p1 p2 = p1.pid == p2.pid

abbrev pub page_equal : Page → Page → Bool
page_equal p1 p2 = get_or p1.index 0 0 == get_or p2.index 0 0

-- The variables of the loops that read a page: memory, page and stream.
pub record Reading : Type 0 where
  pub memory : List Cell
  pub page : Page
  pub source_file : Stream

-- One line into place `j` of the page: `mem_set_value_at(index[j], pid, line, &valid_bit[j])`.
unfoldable pub put_line : Str → ℕ → Str → Reading → Reading
put_line pid j text r =
    let (m, bit) = mem_set_value_at (get_or r.page.index j 0) pid (c_string text) r.memory in
    record r { memory = m; page = record (r.page) { valid_bit = set r.page.valid_bit j bit } }

-- The loop over `j`, with the rounds that are left; the end of the file ends it.
unfoldable pub read_lines : Str → ℕ → ℕ → Reading → Reading
read_lines pid j zero r = r
read_lines pid j (suc n) r =
    let (line, fp) = fgets 999 r.source_file in
    elim line as (λ _. Reading) [
      | none ↦ record r { source_file = fp }
      | some text ↦ read_lines pid (j + 1) n (put_line pid j text (record r { source_file = fp }))
    ]

module _ (frame_store_size var_store_size : ℕ) where
  -- A page takes the indices and the valid bits of the frame that it is given.
  abbrev placed : Page → Frame → Page
  placed p f = record p { index = f.index; valid_bit = f.valid_bit }

  -- `load_PAGE` on one page of a process, given what is printed of its number; `none` is the
  -- return of 1.
  unfoldable pub load_page : Str → Page → Stream → List Cell → Option Reading
  load_page pid_str page fp m = elim (frame_alloc frame_store_size var_store_size pid_str m) [
    | none ↦ none
    | some f ↦ some (
        read_lines pid_str 0 lines_of_page
          (record { memory = f.memory; page = placed page f; source_file = fp }))
  ]

  -- `PAGE_evict`: the lines printed, the page, and the memory, with the rounds that are left.
  unfoldable pub evict_lines : ℕ → ℕ → Page → List Cell → List Str × (Page × List Cell)
  evict_lines i zero page m = ([], (page, m))
  evict_lines i (suc n) page m =
      let pos = get_or page.index i 0 in
      let page' : Page = record page {
        index = set page.index i 0;
        valid_bit = set page.valid_bit i 0;
      } in
      let rest = evict_lines (i + 1) n page' (mem_free_at pos m) in
      (mem_get_value_at pos m ∷ rest.0, rest.1)

  abbrev pub page_evict : Page → List Cell → List Str × (Page × List Cell)
  page_evict page m = evict_lines 0 lines_of_page page m

  -- The first loop of `PCB_init`: the pages from index `i` on are read, with the rounds that are
  -- left. `none` is the exit of the program when no frame is free.
  unfoldable pub init_pages :
      Str → ℕ → ℕ → List Page → Stream → List Cell → Option (List Page × (Stream × List Cell))
  init_pages pid_str i zero pages fp m = some (pages, (fp, m))
  init_pages pid_str i (suc n) pages fp m =
      elim (load_page pid_str (get_or pages i (page_init 0 0)) fp m) [
        | none ↦ none
        | some r ↦ init_pages pid_str (i + 1) n (set pages i (r.page)) (r.source_file) (r.memory)
      ]

  -- `PAGE_init` for the indices from `i` on, of `n`.
  unfoldable pub new_pages : ℕ → ℕ → ℕ → List Page
  new_pages pid i zero = []
  new_pages pid i (suc n) = page_init pid i ∷ new_pages pid (i + 1) n

  -- `PCB_init`: at most two pages are read; `none` is the exit when the file is not there or no
  -- frame is free.
  unfoldable pub pcb_init : (ℕ → Str) → ℕ → Option Str → List Cell → Option (Pcb × List Cell)
  pcb_init pid_name pid file m = elim file [
    | none ↦ none
    | some content ↦
        let size = count_lines content in
        let pages = page_table_size size in
        let page_limit = if ltb pages 2 then pages else 2 in
        elim (init_pages (pid_name pid) 0 page_limit (new_pages pid 0 pages) (opened content) m) [
          | none ↦ none
          | some (table, (fp, m')) ↦ some (
            record {
              pid = pid;
              size = size;
              program_counter = replicate pages 0;
              page_table = table;
              page_table_size = pages;
              source_file = fp;
            },
            m',
          )
        ]
  ]

-- The loop of `free_PCB` over the lines of one page.
unfoldable pub free_page : Page → List Cell → List Cell
free_page page m =
    clear_frame (get_or page.index 2 0)
      (clear_frame (get_or page.index 1 0) (clear_frame (get_or page.index 0 0) m))

-- `free_PCB`: what it does to the memory.
unfoldable pub free_pages : List Page → List Cell → List Cell
free_pages [] m = m
free_pages (page ∷ pages) m = free_pages pages (free_page page m)

abbrev pub free_pcb : Pcb → List Cell → List Cell
free_pcb pcb m = free_pages pcb.page_table m
