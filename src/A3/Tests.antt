-- ===== src/A3/Tests.antt =====
-- The theorems about the third assignment on a memory of nine lines and two variables.
use comp310_w.Prelude.{
  ◌≡◌, refl, ◌≢◌, none, some, List, [], ◌∷◌, Str, codes, str_eq, ne_of_str_eq, arith,
}
use comp310_w.Prelude.Scan.{first_from}
use comp310_w.Prelude.Table.{find_key}
use comp310_w.Prelude.Stream.{Stream, opened, fgets, take_line}
use comp310_w.A3.Memory.{Cell, Frame, cell, blank, unset, at, free_run, frame_alloc}
use comp310_w.A3.Memory.Alloc.{Allocated, frame_alloc-Allocated}
use comp310_w.A3.Memory.Variables.{HasRoom}
use comp310_w.A3.Pcb.{Page, Pcb, Reading, page_init, load_page, free_page}
use comp310_w.A3.Pcb.Loading.{Filled, load_page-Filled, free_page-behind}

-- The line 0 is in use, the lines 1 to 8 are free, and there are two variable cells.
abbrev memory : List Cell
memory =
    cell (codes "7") (codes "help")
    ∷ blank
    ∷ blank
    ∷ blank
    ∷ blank
    ∷ blank
    ∷ blank
    ∷ blank
    ∷ blank
    ∷ blank
    ∷ blank
    ∷ []

abbrev first : Str
first = codes "1"

abbrev second : Str
second = codes "2"

first_frame : (f : Frame) × (frame_alloc 9 2 first memory ≡ some f)
unfolding frame_alloc free_run first_from str_eq
first_frame = (_, refl)

frame_alloc-Allocated_example : Allocated 9 2 first memory (first_frame.0)
frame_alloc-Allocated_example =
    frame_alloc-Allocated 9 2 first memory (first_frame.0) (omega arith) (first_frame.1)

second_frame : (g : Frame) × (frame_alloc 9 2 second ((first_frame.0).memory) ≡ some g)
unfolding first_frame frame_alloc free_run first_from str_eq
second_frame = (_, refl)

first-unset : first ≢ unset
unfolding str_eq
first-unset = ne_of_str_eq _ _ refl

-- With a border of 3 there is no room.
no_frame : frame_alloc 3 8 first memory ≡ none
unfolding frame_alloc free_run first_from str_eq
no_frame = refl

memory-HasRoom : HasRoom 9 2 memory (codes "x")
unfolding find_key first_from str_eq
memory-HasRoom _ e = absurd (ground arith)

abbrev finished : Pcb
finished = record {
  pid = 1;
  size = 0;
  program_counter = 3 ∷ 3 ∷ [];
  page_table = [];
  page_table_size = 2;
  source_file = opened [];
}

abbrev script : Stream
script = opened (codes "a\nb\nc\nd\n")

abbrev behind_a : Stream
behind_a = opened (codes "b\nc\nd\n")

abbrev behind_b : Stream
behind_b = opened (codes "c\nd\n")

abbrev behind_c : Stream
behind_c = opened (codes "d\n")

read_a : fgets 999 script ≡ (some (codes "a\n"), behind_a)
unfolding fgets take_line
read_a = refl

read_b : fgets 999 behind_a ≡ (some (codes "b\n"), behind_b)
unfolding fgets take_line
read_b = refl

read_c : fgets 999 behind_b ≡ (some (codes "c\n"), behind_c)
unfolding fgets take_line
read_c = refl

load_page-Filled_example :
    (r : Reading) × (load_page 9 2 first (page_init 1 0) script memory ≡ some r)
    × Filled 9 2 first
        (page_init 1 0)
        memory
        (first_frame.0)
        (codes "a\n")
        (codes "b\n")
        (codes "c\n")
        behind_c
        r
load_page-Filled_example =
    load_page-Filled 9 2 first (page_init 1 0) memory (first_frame.0) script behind_a behind_b
      behind_c (codes "a\n") (codes "b\n") (codes "c\n") (omega arith) (first_frame.1) read_a read_b
      read_c

abbrev page : Page
page = record (page_init 1 0) { index = 1 ∷ 2 ∷ 3 ∷ [] }

-- Process 1 owns the lines 1 to 3 and process 2 the lines 4 and 5.
abbrev taken : List Cell
taken = blank ∷ cell first [] ∷ cell first [] ∷ cell first [] ∷ cell second [] ∷ cell second [] ∷ []

free_page-behind_example :
    (at (free_page page taken) 4 ≡ blank) × (at (free_page page taken) 5 ≡ blank)
free_page-behind_example = free_page-behind taken page 1 refl
