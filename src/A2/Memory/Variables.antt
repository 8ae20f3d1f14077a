-- ===== src/A2/Memory/Variables.antt =====
-- What the variable cells keep: reads after writes (a2/shellmemory.c).
use comp310_w.Prelude.{
  false, ℕ, ◌+◌, ◌≤◌, ◌≡◌, sym, ◌≢◌, none, some, Str, length, Option-cases, inl, inr,
}
use comp310_w.Prelude.Table.{lookup, lookup-set_found, lookup-set_free, lookup-set_ne, key_of_find}
use comp310_w.A2.Memory.{Memory, Cell, unset, blank, at, store, find, mem_set_value, mem_get_value}

-- A variable can be stored: it is there, or a variable cell is free.
abbrev pub HasRoom : ℕ → ℕ → Memory → Str → Type 0
HasRoom F V m k = find F V m k ≡ none → find F V m unset ≢ none

module _ (F V : ℕ) where
  mem_get_value-lookup :
      (m : Memory) (k : Str)
      → (mem_get_value F V k m).0 ≡ lookup (λ (c : Cell). c.var) (λ c. c.value) blank F V m.cells k
  unfolding mem_get_value lookup
  mem_get_value-lookup m k = elim (Option-cases (find F V m k)) [
    | inl e ↦ rw (e, mem_get_value, lookup)
    | inr (i, e) ↦ rw (e, mem_get_value, lookup)
  ]

  module _ (m : Memory) (k v : Str) where
    -- The cell that a write to a variable leaves at index i, and one to a free cell.
    abbrev overwritten : ℕ → Cell
    overwritten i = record (at m i) { var = k; value = v; literal_value = false }

    abbrev written : ℕ → Cell
    written i = record (at m i) { var = k; value = v; literal_var = false; literal_value = false }

    set_found :
        {i : ℕ} → find F V m k ≡ some i → mem_set_value F V k v m ≡ store m i (overwritten i)
    unfolding mem_set_value
    set_found {i} e =
        rw (e, mem_set_value, sym (key_of_find (λ (c : Cell). c.var) blank F V m.cells k e))

    set_free :
        {i : ℕ}
        → find F V m k ≡ none
        → find F V m unset ≡ some i
        → mem_set_value F V k v m ≡ store m i (written i)
    unfolding mem_set_value
    set_free e f = rw (e, mem_set_value, f)

    -- With no cell of that variable and no free one, `mem_set_value` changes nothing.
    pub mem_set_value-full :
        find F V m k ≡ none → find F V m unset ≡ none → mem_set_value F V k v m ≡ m
    unfolding mem_set_value
    mem_set_value-full e f = rw (e, mem_set_value, f)

    module _ (fits : F + V ≤ length m.cells) where
      -- A variable that has room reads back as the value that was last written to it.
      pub mem_get_value-mem_set_value_same :
          HasRoom F V m k → (mem_get_value F V k (mem_set_value F V k v m)).0 ≡ some v
      mem_get_value-mem_set_value_same room =
          rw mem_get_value-lookup (elim (Option-cases (find F V m k)) [
            | inr (i, e) ↦
                rw (set_found e) (lookup-set_found _ _ blank F V m.cells fits i (overwritten i) e)
            | inl e ↦ elim (Option-cases (find F V m unset)) [
              | inl f ↦ absurd (room e f)
              | inr (i, f) ↦
                  rw (set_free e f)
                    (lookup-set_free _ _ blank F V m.cells fits i (written i) unset e f)
            ]
          ])

      -- A write to one variable leaves what every other variable reads, but for the name "none",
      -- which marks the free cells.
      pub mem_get_value-mem_set_value_other :
          (j : Str)
          → j ≢ k
          → j ≢ unset
          → (mem_get_value F V j (mem_set_value F V k v m)).0 ≡ (mem_get_value F V j m).0
      mem_get_value-mem_set_value_other j ne used =
          rw (mem_get_value-lookup m j, mem_get_value-lookup (mem_set_value F V k v m) j)
            (elim (Option-cases (find F V m k)) [
              | inr (i, e) ↦ rw (set_found e) (
                  lookup-set_ne _ _ blank F V m.cells fits i (overwritten i) k j e (λ s. ne (sym s))
                    (λ s. ne (sym s)))
              | inl e ↦ elim (Option-cases (find F V m unset)) [
                | inl f ↦ rw (mem_set_value-full e f)
                | inr (i, f) ↦ rw (set_free e f) (
                    lookup-set_ne _ _ blank F V m.cells fits i (written i) unset j f
                      (λ s. used (sym s)) (λ s. ne (sym s)))
              ]
            ])
