-- ===== src/A2/Memory.antt =====
-- The memory of the second shell (a2/shellmemory.c): an array whose first cells are the frame
-- store, three lines to a frame, and whose other cells are the variables.
pub mod Frames
pub mod Freeing
pub mod Variables
use mathlib.Core.Option
use comp310_w.Prelude.{
  ℕ, zero, suc, ◌+◌, ◌-◌, ◌*◌, ◌/◌, ◌%◌, min, ◌==◌, ltb, leb, if◌then◌else◌, ◌&&◌, ◌||◌, Bool, true,
  false, Option, none, some, List, [], ◌∷◌, Str, codes, str_eq, get_or, set, replicate,
}
use comp310_w.Prelude.Scan.{first_from}
use comp310_w.Prelude.Table.{find_key}

-- `struct memory_struct`, and whether `var` and `value` point to the literal "none" of the program
-- instead of a string that `strdup` has made.
pub record Cell : Type 0 where
  pub var : Str
  pub value : Str
  pub age : ℕ
  pub accessed : ℕ
  pub literal_var : Bool
  pub literal_value : Bool

pub data PagePolicy : Type 0 where
  fifo lru : PagePolicy

-- The global variables of the file: `shellmemory`, `current_policy`, `global_access_time`.
pub record Memory : Type 0 where
  pub cells : List Cell
  pub current_policy : PagePolicy
  pub global_access_time : ℕ

abbrev pub unset : Str
unset = codes "none"

-- A cell with two strings of its own, and one with the literal twice.
abbrev pub cell : Str → Str → ℕ → ℕ → Cell
cell k v age accessed = record {
  var = k;
  value = v;
  age = age;
  accessed = accessed;
  literal_var = false;
  literal_value = false;
}

abbrev pub free_cell : ℕ → ℕ → Cell
free_cell age accessed = record {
  var = unset;
  value = unset;
  age = age;
  accessed = accessed;
  literal_var = true;
  literal_value = true;
}

abbrev pub blank : Cell
blank = free_cell 0 0

abbrev pub frame_size : ℕ
frame_size = 3

-- `shellmemory[i]`
abbrev pub at : Memory → ℕ → Cell
at m i = get_or m.cells i blank

abbrev pub store : Memory → ℕ → Cell → Memory
store m i c = record m { cells = set m.cells i c }

unfoldable pub set_memory_policy : PagePolicy → Memory → Memory
set_memory_policy policy m = record m { current_policy = policy }

-- The sizes are set when the program is compiled.
module _ (frame_store_size var_store_size : ℕ) where
  abbrev pub memory_length : ℕ
  memory_length = frame_store_size + var_store_size

  -- `mem_init`: every cell is written; the other globals stay.
  unfoldable pub mem_init : Memory → Memory
  mem_init m = record m { cells = replicate memory_length blank }

  -- The cells from the threshold on lose their variables; their times stay.
  clear_variables : ℕ → ℕ → Memory → Memory
  clear_variables i zero m = m
  clear_variables i (suc n) m = clear_variables (i + 1) n (
      store m i
        (record (at m i) { var = unset; value = unset; literal_var = true; literal_value = true }))

  unfoldable pub mem_init_variable : Memory → Memory
  unfolding clear_variables
  mem_init_variable m = clear_variables frame_store_size var_store_size m

  -- The index at which a loop over the variables stops.
  abbrev pub find : Memory → Str → Option ℕ
  find m k = find_key (λ (c : Cell). c.var) blank frame_store_size var_store_size m.cells k

  unfoldable pub mem_set_value : Str → Str → Memory → Memory
  mem_set_value var_in value_in m = elim (find m var_in) [
    | some i ↦ store m i (record (at m i) { value = value_in; literal_value = false })
    | none ↦ elim (find m unset) [
      | some i ↦ store m i (record (at m i) {
        var = var_in;
        value = value_in;
        literal_var = false;
        literal_value = false;
      })
      | none ↦ m
    ]
  ]

  -- A read counts as an access.
  unfoldable pub mem_get_value : Str → Memory → Option Str × Memory
  mem_get_value var_in m = elim (find m var_in) [
    | some i ↦
        let time = m.global_access_time + 1 in
        (
          some ((at m i).value),
          record m {
            cells = set m.cells i (record (at m i) { accessed = time });
            global_access_time = time;
          },
        )
    | none ↦ (none, m)
  ]

  -- One turn of `mem_free_lines_between`, where `free` is given two strings that `strdup` has made.
  abbrev free_line : ℕ → Memory → Memory
  free_line i m =
      let time = m.global_access_time + 1 in
      record m { cells = set m.cells i (free_cell time time); global_access_time = time }

  -- Whether `free` is given a string literal, which ends the program.
  abbrev pub has_literal : ℕ → Memory → Bool
  has_literal i m = (at m i).literal_var || (at m i).literal_value

  free_lines : ℕ → ℕ → Memory → Option Memory
  free_lines i zero m = some m
  free_lines i (suc n) m =
      let rest = free_lines (i + 1) n (free_line i m) in if has_literal i m then none else rest

  -- `mem_free_lines_between`: the cells from `start` to `end`, both with, that are in the array;
  -- `none` is the end of the program in `free`.
  unfoldable pub mem_free_lines_between : ℕ → ℕ → Memory → Option Memory
  unfolding free_lines
  mem_free_lines_between start end m = free_lines start (min (end + 1) memory_length - start) m

  -- `find_available_slot`: the test of one frame, and the loop over the frames that begin below
  -- the threshold.
  unfoldable pub free_frame : Memory → ℕ → Bool
  free_frame m i =
      str_eq ((at m i).var) unset
      && str_eq ((at m (i + 1)).var) unset
      && str_eq ((at m (i + 2)).var) unset

  abbrev pub frames : ℕ
  frames = (frame_store_size + 2) / 3

  unfoldable pub find_available_slot : Memory → Option ℕ
  unfolding free_frame
  find_available_slot m =
      Option.map (λ j. frame_size * j) (first_from (λ j. free_frame m (frame_size * j)) 0 frames)

  -- The loop of `find_lru_slot` and `find_fifo_slot`: the first frame of least time, below a bound.
  unfoldable pub least_loop : (ℕ → ℕ) → ℕ → ℕ → Option ℕ → ℕ → Option ℕ
  least_loop time j zero best bound = best
  least_loop time j (suc n) best bound =
      let earlier = ltb (time j) bound in
      least_loop time (j + 1) n (if earlier then some (frame_size * j) else best)
        (if earlier then time j else bound)

  unfoldable pub find_lru_slot : Memory → Option ℕ
  unfolding least_loop
  find_lru_slot m = least_loop (λ j. (at m (frame_size * j)).accessed) 0 frames none 9999

  unfoldable pub find_fifo_slot : Memory → Option ℕ
  unfolding least_loop
  find_fifo_slot m = least_loop (λ j. (at m (frame_size * j)).age) 0 frames none 9999

  unfoldable pub find_replacement_slot : Memory → Option ℕ
  find_replacement_slot m = elim (m.current_policy) [
    | lru ↦ find_lru_slot m
    | fifo ↦ find_fifo_slot m
  ]
