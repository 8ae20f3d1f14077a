-- ===== src/A2/Loader.antt =====
-- Moving pages between script files and the frame store (`load_file`, `load_frame` and
-- `remove_frame` of a2/shellmemory.c).
pub mod Fault
use comp310_w.Prelude.{
  ℕ, zero, suc, ◌+◌, ◌-◌, ◌*◌, ◌%◌, ◌==◌, ltb, leb, if◌then◌else◌, ◌||◌, Bool, true, false, not,
  Option, none, some, List, [], ◌∷◌, Str, set, length,
}
use comp310_w.Prelude.Int.{ℤ, pos, pred_int}
use comp310_w.Prelude.Stream.{Stream, opened, fgets, c_string}
use comp310_w.A2.Pcb.{Pcb}
use comp310_w.A2.Memory.{
  Memory, cell, at, store, frame_size, find_available_slot, find_replacement_slot,
  mem_free_lines_between,
}

-- The variables of `load_file`; `frame_index` is a `size_t`. `behind_table` says that the table of
-- pages has been written behind its end.
pub record Loading : Type 0 where
  pub memory : Memory
  pub pcb : Pcb
  pub fp : Stream
  pub frame_index : ℕ
  pub lines_loaded : ℕ
  pub load_next_page : Bool
  pub behind_table : Bool

-- `pagetable[pageCounter] = true; pageCounter++`; `none` is a write behind the table.
unfoldable pub mark_page : Pcb → Option Pcb
mark_page p =
    if ltb p.page_counter (length p.page_table)
    then some (record p {
      page_table = set p.page_table p.page_counter true;
      page_counter = p.page_counter + 1;
    })
    else none

-- A line goes to a cell, with a new time.
abbrev pub put_line : Str → Str → ℕ → Memory → Memory
put_line filename line i m =
    let time = m.global_access_time + 1 in
    let written = store m i (cell filename (c_string line) time time) in
    record written { global_access_time = time }

-- The check for a completed page, behind the two increments.
unfoldable pub page_done : Loading → Loading
page_done l =
    if (l.lines_loaded % frame_size == 0) || l.fp.eof
    then elim (mark_page l.pcb) [
      | none ↦ record l { behind_table = true }
      | some p ↦ record l {
        pcb = p;
        load_next_page = if p.page_counter == 2 then false else l.load_next_page;
      }
    ]
    else l

-- One line of a page: read, store and count it. A read that returns the null pointer is skipped.
unfoldable pub load_line : Str → Loading → Loading
unfolding page_done
load_line filename l =
    let (line, fp) = fgets 100 l.fp in
    elim line [
      | none ↦ record l { fp = fp }
      | some text ↦ page_done (record l {
        memory = put_line filename text l.frame_index l.memory;
        fp = fp;
        frame_index = l.frame_index + 1;
        lines_loaded = l.lines_loaded + 1;
      })
    ]

-- The inner loop of `load_file`, with the rounds that are left.
unfoldable pub load_page : Str → ℕ → Loading → Loading
load_page filename zero l = l
load_page filename (suc n) l =
    let rest = load_page filename n (load_line filename l) in
    let stopped = record l { pcb = record (l.pcb) { end = pred_int l.frame_index } } in
    if ltb l.lines_loaded (frame_size * 2) then (if l.fp.eof then stopped else rest) else l

module _ (frame_store_size var_store_size : ℕ) where
  -- `frame_index < THRESHOLD - 2`: below 2 the right side is negative, and huge as a `size_t`.
  abbrev below_last_frame : ℕ → Bool
  below_last_frame i = ltb frame_store_size 2 || ltb i (frame_store_size - 2)

  -- The outer loop of `load_file`, with its error code; `none` means that the fuel ran out.
  unfoldable pub load_pages : ℕ → Str → Loading → Option (ℕ × Loading)
  load_pages zero filename l = none
  load_pages (suc fuel) filename l =
      let l' = load_page filename frame_size l in
      let rest = load_pages fuel filename l' in
      if l.fp.eof
      then some (0, l)
      else if not l.load_next_page
      then some (0, l)
      else if not (below_last_frame l.frame_index)
      then some (0, l)
      else if ltb frame_store_size l'.frame_index
      then some (21, l')
      else rest

  -- What `load_file` returns, with what it leaves in memory, block and stream.
  pub record Loaded : Type 0 where
    pub error_code : ℕ
    pub memory : Memory
    pub pcb : Pcb
    pub fp : Stream

  -- A result, a write behind the table of pages, or no fuel that is left.
  pub data LoadResult : Type 0 where
    finished : Loaded → LoadResult
    out_of_table : LoadResult
    out_of_fuel : LoadResult

  unfoldable pub load_file : ℕ → Stream → ℕ → Pcb → Str → Memory → LoadResult
  load_file fuel fp fp_address pcb filename m =
      elim (find_available_slot frame_store_size var_store_size m) [
        | none ↦ finished (record { error_code = 21; memory = m; pcb = pcb; fp = fp })
        | some slot ↦
            let begun : Loading = record {
              memory = m;
              pcb = record pcb {
                start = slot;
                pc = slot;
                filename = some filename;
                file = fp_address;
              };
              fp = fp;
              frame_index = slot;
              lines_loaded = 0;
              load_next_page = true;
              behind_table = false;
            } in
            elim (load_pages fuel filename begun) [
              | none ↦ out_of_fuel
              | some (code, l) ↦
                  let result : Loaded = record {
                    error_code = code;
                    memory = l.memory;
                    pcb = record (l.pcb) { end = pred_int l.frame_index };
                    fp = l.fp;
                  } in
                  if l.behind_table then out_of_table else finished result
            ]
      ]

  -- `load_frame` returns 0, -1 or -2; it reads through a null pointer if the file is not there, and
  -- writes behind the table of pages if that is full.
  pub data FrameResult : Type 0 where
    loaded : Memory → Pcb → FrameResult
    no_space : FrameResult
    no_lines : FrameResult
    crashed : FrameResult

  -- The lines of the pages that are loaded are read again and dropped; `none` is the return of -2.
  unfoldable pub skip_lines : ℕ → Stream → Option Stream
  skip_lines zero fp = some fp
  skip_lines (suc n) fp =
      let fp' = (fgets 100 fp).1 in let rest = skip_lines n fp' in if fp'.eof then none else rest

  -- The loop that fills the frame, with the rounds that are left: memory, index and stream. The
  -- `end` that it sets at the end of the file is set again behind it.
  unfoldable pub fill_frame : Str → ℕ → Stream → ℕ → Memory → Memory × ℕ
  fill_frame filename zero fp i m = (m, i)
  fill_frame filename (suc n) fp i m =
      let (line, fp') = fgets 100 fp in
      let next = elim line as (λ _. Memory × ℕ) [
        | none ↦ (m, i)
        | some text ↦ (put_line filename text i m, i + 1)
      ] in
      let rest = fill_frame filename n fp' next.1 next.0 in if fp.eof then (m, i) else rest

  -- `files` is what `fopen` finds: the content of each file that is there.
  unfoldable pub load_frame : (Str → Option Str) → Pcb → Memory → FrameResult
  load_frame files pcb m = elim (pcb.filename) [
    | none ↦ crashed
    | some filename ↦ elim (files filename) [
      | none ↦ crashed
      | some content ↦ elim (skip_lines (pcb.page_counter * frame_size) (opened content)) [
        | none ↦ no_lines
        | some fp ↦
            if fp.eof
            then no_lines
            else elim (find_available_slot frame_store_size var_store_size m) [
              | none ↦ no_space
              | some slot ↦
                  let (m', i) = fill_frame filename frame_size fp slot m in
                  let placed : Pcb = record pcb { start = slot; pc = slot; end = pred_int i } in
                  elim (mark_page placed) [ none ↦ crashed | some p ↦ loaded m' p ]
            ]
      ]
    ]
  ]

  -- `remove_frame` returns 0 or -1; it writes in front of the array if no victim is found, and ends
  -- the program if a line of the victim is free.
  pub data RemoveResult : Type 0 where
    removed : List Str → Memory → Pcb → RemoveResult
    no_file : RemoveResult
    no_victim : RemoveResult
    aborted : RemoveResult

  -- The lines of the victim that are printed.
  abbrev victim_lines : ℕ → Memory → List Str
  victim_lines i m = (at m i).value ∷ (at m (i + 1)).value ∷ (at m (i + 2)).value ∷ []

  unfoldable pub remove_frame : (Str → Option Str) → Pcb → Memory → RemoveResult
  remove_frame files pcb m = elim (pcb.filename) [
    | none ↦ no_victim
    | some filename ↦ elim (files filename) [
      | none ↦ no_file
      | some _ ↦ elim (find_replacement_slot frame_store_size var_store_size m) [
        | none ↦ no_victim
        | some i ↦
            elim (mem_free_lines_between frame_store_size var_store_size i (i + frame_size - 1) m) [
              | none ↦ aborted
              | some freed ↦
                  removed (victim_lines i m) freed
                    (record pcb { start = i; pc = i; page_table = set pcb.page_table 0 false })
            ]
      ]
    ]
  ]

  -- `mem_get_value_at_line`: a null pointer outside the bounds; at the bound itself it reads
  -- behind the array.
  pub data Fetched : Type 0 where
    null_line : Fetched
    out_of_array : Fetched
    line : Str → Memory → Fetched

  unfoldable pub mem_get_value_at_line : ℕ → Memory → Fetched
  mem_get_value_at_line index m =
      let length = frame_store_size + var_store_size in
      let time = m.global_access_time + 1 in
      let touched = store m index (record (at m index) { accessed = time }) in
      if ltb length index
      then null_line
      else if index == length
      then out_of_array
      else line ((at m index).value) (record touched { global_access_time = time })
