-- ===== src/A1/Memory.antt =====
-- The variable memory of the first shell (a1/shellmemory.c): an array of 1000 cells, each a
-- variable and its value, where a free cell holds "none" twice.
pub mod Laws
pub mod Text
use comp310_w.Prelude.{
  ℕ, ◌+◌, ◌==◌, if◌then◌else◌, Option, none, some, List, [], ◌∷◌, zero, suc, Str, codes, get_or,
  set, replicate, length, Bool, true, false,
}
use comp310_w.Prelude.Table.{find_key}
use mathlib.Core.Option

-- `struct memory_struct`
pub record Cell : Type 0 where
  pub var : Str
  pub value : Str

abbrev pub cell : Str → Str → Cell
cell k v = record { var = k; value = v }

abbrev pub unset : Str
unset = codes "none"

abbrev pub blank : Cell
blank = cell unset unset

abbrev pub memory_size : ℕ
memory_size = 1000

-- `mem_init`: every entry of the array is written.
unfoldable pub mem_init : List Cell
mem_init = replicate memory_size blank

-- The index at which a loop over the whole array stops.
abbrev pub find : List Cell → Str → Option ℕ
find m k = find_key (λ (c : Cell). c.var) blank 0 memory_size m k

-- The first loop of `mem_set_value` overwrites the value of a variable that is there; the second
-- takes the first free cell. If neither finds a place nothing is written.
pub mem_set_value : List Cell → Str → Str → List Cell
mem_set_value m var_in value_in = elim (find m var_in) [
  | some i ↦ set m i (record (get_or m i blank) { value = value_in })
  | none ↦ elim (find m unset) [ some i ↦ set m i (cell var_in value_in) | none ↦ m ]
]

-- `none` is the null pointer.
pub mem_get_value : List Cell → Str → Option Str
mem_get_value m var_in = elim (find m var_in) [
  | some i ↦ some ((get_or m i blank).value)
  | none ↦ none
]

-- `match` counts the places of `var` at which `model` has the same byte; a byte behind the end of
-- `model` is its closing NUL.
match_count : Str → Str → ℕ
match_count model [] = 0
match_count [] (c ∷ var) = match_count [] var + (if 0 == c then 1 else 0)
match_count (d ∷ model) (c ∷ var) = match_count model var + (if d == c then 1 else 0)

pub match : Str → Str → Bool
unfolding match_count
match model var = match_count model var == length var

-- `extract`: the bytes behind the first '='; none if there is no '='.
pub extract : Str → Str
extract [] = []
extract (c ∷ model) = if c == b'=' then model else extract model
