-- ===== src/A1/Memory/Laws.antt =====
-- What the variable memory of a1/shellmemory.c keeps: reads after writes, and the full table.
use comp310_w.Prelude.{
  ℕ, ◌≡◌, refl, sym, ◌≢◌, none, some, List, Str, arith, length, set, Option-cases, inl, inr,
}
use comp310_w.Prelude.Table.{lookup, lookup-set_found, lookup-set_free, lookup-set_ne, key_of_find}
use comp310_w.A1.Memory.{Cell, cell, unset, blank, memory_size, find, mem_set_value, mem_get_value}

-- A variable can be stored: it is there, or a cell is free.
abbrev pub HasRoom : List Cell → Str → Type 0
HasRoom m k = find m k ≡ none → find m unset ≢ none

-- `mem_get_value` is the search of a keyed table.
mem_get_value-lookup :
    (m : List Cell) (k : Str)
    → mem_get_value m k ≡ lookup (λ (c : Cell). c.var) (λ c. c.value) blank 0 memory_size m k
unfolding mem_get_value lookup
mem_get_value-lookup m k = refl

-- Where `mem_set_value` writes, and what.
set_found :
    (m : List Cell) (k v : Str) {i : ℕ}
    → find m k ≡ some i
    → mem_set_value m k v ≡ set m i (cell k v)
unfolding mem_set_value
set_found m k v {i} e =
    rw (e, mem_set_value, key_of_find (λ (c : Cell). c.var) blank 0 memory_size m k e)

set_free :
    (m : List Cell) (k v : Str) {i : ℕ}
    → find m k ≡ none
    → find m unset ≡ some i
    → mem_set_value m k v ≡ set m i (cell k v)
unfolding mem_set_value
set_free m k v e f = rw (e, mem_set_value, f)

-- With no cell of that variable and no free cell, `mem_set_value` changes nothing.
pub mem_set_value-full :
    (m : List Cell) (k v : Str) → find m k ≡ none → find m unset ≡ none → mem_set_value m k v ≡ m
unfolding mem_set_value
mem_set_value-full m k v e f = rw (e, mem_set_value, f)

module _ (m : List Cell) (k v : Str) (size : length m ≡ memory_size) where
  -- A variable that has room reads back as the value that was last written to it.
  pub mem_get_value-mem_set_value_self :
      HasRoom m k → mem_get_value (mem_set_value m k v) k ≡ some v
  mem_get_value-mem_set_value_self room = rw mem_get_value-lookup (elim (Option-cases (find m k)) [
    | inr (i, e) ↦
        rw (set_found m k v e)
          (lookup-set_found _ _ blank 0 memory_size m (omega arith) i (cell k v) e)
    | inl e ↦ elim (Option-cases (find m unset)) [
      | inl f ↦ absurd (room e f)
      | inr (i, f) ↦
          rw (set_free m k v e f)
            (lookup-set_free _ _ blank 0 memory_size m (omega arith) i (cell k v) unset e f)
    ]
  ])

  -- A write to one variable leaves what every other variable reads, but for the name "none", which
  -- marks the free cells.
  pub mem_get_value-mem_set_value_ne :
      (j : Str) → j ≢ k → j ≢ unset → mem_get_value (mem_set_value m k v) j ≡ mem_get_value m j
  mem_get_value-mem_set_value_ne j ne used =
      rw (mem_get_value-lookup m j, mem_get_value-lookup (mem_set_value m k v) j)
        (elim (Option-cases (find m k)) [
          | inr (i, e) ↦ rw (set_found m k v e) (
              lookup-set_ne _ _ blank 0 memory_size m (omega arith) i (cell k v) k j e
                (λ s. ne (sym s)) (λ s. ne (sym s)))
          | inl e ↦ elim (Option-cases (find m unset)) [
            | inl f ↦ rw (mem_set_value-full m k v e f)
            | inr (i, f) ↦ rw (set_free m k v e f) (
                lookup-set_ne _ _ blank 0 memory_size m (omega arith) i (cell k v) unset j f
                  (λ s. used (sym s)) (λ s. ne (sym s)))
          ]
        ])
