-- ===== src/A2/Tests/Paging.antt =====
-- The theorems about the memory and the loader of the second assignment on a memory of two frames.
use comp310_w.Prelude.{
  ◌≡◌, refl, ◌≢◌, Option, none, some, List, [], ◌∷◌, Str, codes, str_eq, ne_of_str_eq, arith,
}
use comp310_w.Prelude.Scan.{first_from}
use comp310_w.Prelude.Table.{find_key}
use comp310_w.Prelude.Stream.{fgets, take_line}
use comp310_w.A2.Pcb.{Pcb, make_pcb}
use comp310_w.A2.Memory.{
  Memory, cell, blank, unset, lru, free_frame, find_available_slot, least_loop, find_lru_slot,
  find_replacement_slot,
}
use comp310_w.A2.Memory.Variables.{HasRoom}
use comp310_w.A2.Loader.{load_frame, remove_frame, skip_lines, removed, loaded, no_space}
use comp310_w.A2.Loader.Fault.{load_frame-remove_frame}

-- The first frame holds a page, the second one is free; there are two variable cells.
abbrev pub half : Memory
half = record {
  cells =
      cell (codes "p") (codes "a") 1 4
      ∷ cell (codes "p") (codes "b") 2 2
      ∷ cell (codes "p") (codes "c") 3 3
      ∷ blank
      ∷ blank
      ∷ blank
      ∷ cell (codes "x") (codes "1") 0 0
      ∷ blank
      ∷ [];
  current_policy = lru;
  global_access_time = 4;
}

-- Both frames hold pages; the second one was used less recently.
abbrev full : Memory
full = record {
  cells =
      cell (codes "p") (codes "a") 1 9
      ∷ cell (codes "p") (codes "b") 2 2
      ∷ cell (codes "p") (codes "c") 3 3
      ∷ cell (codes "p") (codes "d") 4 4
      ∷ cell (codes "p") (codes "e") 5 5
      ∷ cell (codes "p") (codes "f") 6 6
      ∷ cell (codes "x") (codes "1") 0 0
      ∷ blank
      ∷ [];
  current_policy = lru;
  global_access_time = 9;
}

half_slot : find_available_slot 6 2 half ≡ some 3
unfolding find_available_slot first_from free_frame str_eq
half_slot = refl

full_slot : find_available_slot 6 2 full ≡ none
unfolding find_available_slot first_from free_frame str_eq
full_slot = refl

full_victim : find_replacement_slot 6 2 full ≡ some 3
unfolding find_replacement_slot find_lru_slot least_loop
full_victim = refl

-- A process with two pages loaded, of a script of seven lines.
abbrev pub files : Str → Option Str
files name = some (codes "a\nb\nc\nd\ne\nf\ng\n")

abbrev pub waiting : Pcb
waiting = record ((make_pcb 1).0) { filename = some (codes "p"); page_counter = 2 }

faulting : load_frame 6 2 files waiting full ≡ no_space
unfolding load_frame skip_lines fgets take_line find_available_slot first_from free_frame str_eq
faulting = refl

load_frame-remove_frame_example :
    (out : List Str) × (m' : Memory) × (pcb' : Pcb) × (m'' : Memory) × (pcb'' : Pcb) × (remove_frame
        6 2 files waiting full
      ≡ removed out m' pcb')
    × (load_frame 6 2 files pcb' m' ≡ loaded m'' pcb'')
    × (pcb''.page_counter ≡ 3)
load_frame-remove_frame_example =
    load_frame-remove_frame 6 2 files waiting full 3 (omega arith) (omega arith) (omega arith)
      faulting full_victim (refl, refl, refl)

half-HasRoom : HasRoom 6 2 half (codes "y")
unfolding find_key first_from str_eq
half-HasRoom _ e = absurd (ground arith)

x-y : codes "x" ≢ codes "y"
unfolding str_eq
x-y = ne_of_str_eq _ _ refl

x-unset : codes "x" ≢ unset
unfolding str_eq
x-unset = ne_of_str_eq _ _ refl
