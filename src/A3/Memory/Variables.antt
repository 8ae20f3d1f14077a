-- ===== src/A3/Memory/Variables.antt =====
-- What the variable cells of a3/shellmemory.c keep, and what the commands see of them.
use comp310_w.Prelude.{
  ℕ, ◌+◌, ◌≤◌, ◌≡◌, ◌≢◌, none, some, Option, List, [], Str, codes, length, set, if◌then◌else◌, ◌==◌,
  Option-cases, inl, inr,
}
use comp310_w.Prelude.Table.{lookup, lookup-set_found, lookup-set_free, key_of_find}
use comp310_w.A3.Memory.{Cell, cell, unset, blank, find, mem_set_value, mem_get_value}

-- A variable can be stored: it is there, or a variable cell is free.
abbrev pub HasRoom : ℕ → ℕ → List Cell → Str → Type 0
HasRoom F V m k = find F V m k ≡ none → find F V m unset ≢ none

-- The answer for a variable that is not there.
abbrev answer : ℕ → Option Str → Str
answer caller (some v) = v
answer caller none = if caller == b'p' then codes "Variable does not exist" else []

module _ (F V : ℕ) where
  abbrev value_of : List Cell → Str → Option Str
  value_of m k = lookup (λ (c : Cell). c.var) (λ c. c.value) blank F V m k

  mem_get_value-lookup :
      (m : List Cell) (k : Str) (caller : ℕ)
      → mem_get_value F V k caller m ≡ answer caller (value_of m k)
  unfolding mem_get_value lookup
  mem_get_value-lookup m k caller = elim (Option-cases (find F V m k)) [
    | inl e ↦ rw (e, mem_get_value, lookup)
    | inr (i, e) ↦ rw (e, mem_get_value, lookup)
  ]

  module _ (m : List Cell) (k v : Str) where
    set_found : {i : ℕ} → find F V m k ≡ some i → mem_set_value F V k v m ≡ set m i (cell k v)
    unfolding mem_set_value
    set_found {i} e = rw (e, mem_set_value, key_of_find (λ (c : Cell). c.var) blank F V m k e)

    set_free :
        {i : ℕ}
        → find F V m k ≡ none
        → find F V m unset ≡ some i
        → mem_set_value F V k v m ≡ set m i (cell k v)
    unfolding mem_set_value
    set_free e f = rw (e, mem_set_value, f)

    set_full : find F V m k ≡ none → find F V m unset ≡ none → mem_set_value F V k v m ≡ m
    unfolding mem_set_value
    set_full e f = rw (e, mem_set_value, f)

    module _ (fits : F + V ≤ length m) where
      -- A variable that has room reads back as the value last written to it, whatever command asks.
      pub mem_get_value-mem_set_value_back :
          (caller : ℕ) → HasRoom F V m k → mem_get_value F V k caller (mem_set_value F V k v m) ≡ v
      mem_get_value-mem_set_value_back caller room =
          rw (mem_get_value-lookup (mem_set_value F V k v m) k caller)
            (elim (Option-cases (find F V m k)) [
              | inr (i, e) ↦ rw (set_found e, lookup-set_found _ _ blank F V m fits i (cell k v) e)
              | inl e ↦ elim (Option-cases (find F V m unset)) [
                | inl f ↦ absurd (room e f)
                | inr (i, f) ↦ rw (
                  set_free e f,
                  lookup-set_free (λ (c : Cell). c.var) (λ c. c.value) blank F V m fits i (cell k v)
                      unset e f,
                )
              ]
            ])
