-- ===== src/A3/Memory.antt =====
-- The memory of the third shell (a3/shellmemory.c): an array whose first cells are frames of three
-- lines, anywhere below the border, and whose other cells are the variables.
pub mod Alloc
pub mod Variables
use comp310_w.Prelude.{
  ℕ, zero, suc, ◌+◌, ◌==◌, ltb, if◌then◌else◌, ◌&&◌, Bool, Option, none, some, List, [], ◌∷◌, Str,
  codes, str_eq, get_or, set, replicate,
}
use comp310_w.Prelude.Scan.{first_from}
use comp310_w.Prelude.Table.{find_key}

-- `struct memory_struct`
pub record Cell : Type 0 where
  pub var : Str
  pub value : Str

abbrev pub cell : Str → Str → Cell
cell k v = record { var = k; value = v }

abbrev pub unset : Str
unset = codes "none"

abbrev pub blank : Cell
blank = cell unset unset

-- `shellmemory[i]`
abbrev pub at : List Cell → ℕ → Cell
at m i = get_or m i blank

-- `mem_free_at`
abbrev pub mem_free_at : ℕ → List Cell → List Cell
mem_free_at pos m = set m pos blank

-- `mem_set_value_at`; the valid bit becomes 1.
abbrev pub mem_set_value_at : ℕ → Str → Str → List Cell → List Cell × ℕ
mem_set_value_at pos pid value_in m = (set m pos (cell pid value_in), 1)

abbrev pub mem_get_value_at : ℕ → List Cell → Str
mem_get_value_at pos m = (at m pos).value

-- `mem_free_at` on `n` cells from `i` on, as the loops of `clear_frame` and `reset_var_zone` do.
unfoldable pub free_from : ℕ → ℕ → List Cell → List Cell
free_from i zero m = m
free_from i (suc n) m = free_from (i + 1) n (mem_free_at i m)

-- `clear_frame`
abbrev pub clear_frame : ℕ → List Cell → List Cell
clear_frame start_pos m = free_from start_pos 3 m

-- What `frame_alloc` writes: `index`, `valid_bit`, and the memory behind it.
pub record Frame : Type 0 where
  pub index : List ℕ
  pub valid_bit : List ℕ
  pub memory : List Cell

module _ (frame_store_size var_store_size : ℕ) where
  -- Every entry of the array is written.
  abbrev pub mem_init : List Cell
  mem_init = replicate (frame_store_size + var_store_size) blank

  abbrev pub reset_var_zone : List Cell → List Cell
  reset_var_zone m = free_from frame_store_size var_store_size m

  -- Where the inner loop of `frame_alloc` over `j` ends, with the rounds that are left.
  unfoldable pub free_run : List Cell → ℕ → ℕ → ℕ
  free_run m j zero = j
  free_run m j (suc n) =
      let further = free_run m (j + 1) n in
      if ltb j frame_store_size && str_eq ((at m j).var) unset then further else j

  -- A cell is marked; its value stays.
  abbrev pub mark : Str → ℕ → List Cell → List Cell
  mark pid k m = set m k (record (at m k) { var = pid })

  abbrev pub mark_frame : Str → ℕ → List Cell → List Cell
  mark_frame pid i m = mark pid (i + 2) (mark pid (i + 1) (mark pid i m))

  -- `frame_alloc`; `none` is the return of 1.
  unfoldable pub frame_alloc : Str → List Cell → Option Frame
  frame_alloc pid m = elim (first_from (λ i. free_run m i 3 == i + 3) 0 frame_store_size) [
    | none ↦ none
    | some i ↦ some (record {
      index = i ∷ (i + 1) ∷ (i + 2) ∷ [];
      valid_bit = 0 ∷ 0 ∷ 0 ∷ [];
      memory = mark_frame pid i m;
    })
  ]

  -- The index at which a loop over the variables stops.
  abbrev pub find : List Cell → Str → Option ℕ
  find m k = find_key (λ (c : Cell). c.var) blank frame_store_size var_store_size m k

  unfoldable pub mem_set_value : Str → Str → List Cell → List Cell
  mem_set_value var_in value_in m = elim (find m var_in) [
    | some i ↦ set m i (record (at m i) { value = value_in })
    | none ↦ elim (find m unset) [ some i ↦ set m i (cell var_in value_in) | none ↦ m ]
  ]

  -- For a variable that is not there the answer depends on the command that asks.
  unfoldable pub mem_get_value : Str → ℕ → List Cell → Str
  mem_get_value var_in caller m = elim (find m var_in) [
    | some i ↦ (at m i).value
    | none ↦ if caller == b'p' then codes "Variable does not exist" else []
  ]
