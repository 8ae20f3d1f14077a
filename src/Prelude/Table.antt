-- ===== src/Prelude/Table.antt =====
-- An array of keyed cells, searched by key over the indices from `lo` on, of `n`. An unused cell
-- has the key `free`.
use Prim.Native.Nat.{ℕ, ◌+◌, ◌≤◌, ◌<◌}
use mathlib.Core.Path.{◌≡◌}
use mathlib.Core.Logic.{◌≢◌, inl, inr}
use mathlib.Core.Bool.{false}
use mathlib.Core.Option.{Option, none, some}
use mathlib.Core.List.{List}
use native.Mathlib.Omega.{arith}
use native.Mathlib.Decide.{ℕ_discrete}
use comp310_w.Prelude.Lists.{length, get_or, set, get_or-set_self, get_or-set_ne}
use comp310_w.Prelude.Bytes.{Str, str_eq, str_eq_refl, str_eq_ne, eq_of_str_eq}
use comp310_w.Prelude.Tests.{Option-cases}
use comp310_w.Prelude.Scan.{
  first_from, Found, first_from-Found, first_from-none, first_from-some, first_from-congr,
}

module _ {ℓ} {A : Type ℓ} (key : A → Str) (d : A) (lo n : ℕ) where
  -- `for (i = lo; i < lo + n; i++) if (strcmp(m[i].key, k) == 0) return i;`
  unfoldable pub find_key : List A → Str → Option ℕ
  find_key m k = first_from (λ i. str_eq (key (get_or m i d)) k) lo n

  -- What a found index is.
  pub find_key-Found :
      (m : List A) (k : Str) {j : ℕ}
      → find_key m k ≡ some j
      → Found (λ i. str_eq (key (get_or m i d)) k) lo n j
  unfolding find_key
  find_key-Found m k h = first_from-Found (λ i. str_eq (key (get_or m i d)) k) lo n h

  pub key_of_find : (m : List A) (k : Str) {j : ℕ} → find_key m k ≡ some j → key (get_or m j d) ≡ k
  key_of_find m k {j} h = eq_of_str_eq _ _ ((find_key-Found m k h).passes)

  pub find_key-none :
      (m : List A) (k : Str)
      → find_key m k ≡ none
      → (i : ℕ) → lo ≤ i
      → i < lo + n
      → str_eq (key (get_or m i d)) k ≡ false
  unfolding find_key
  find_key-none m k h i a b = first_from-none _ lo n h i a b

  module _ (m : List A) (j : ℕ) (c : A) (room : j < length m) where
    -- A write at a place before which the key does not stand.
    pub find_key-set_self :
        lo ≤ j
        → j < lo + n
        → ((i : ℕ) → lo ≤ i → i < j → str_eq (key (get_or m i d)) (key c) ≡ false)
        → find_key (set m j c) (key c) ≡ some j
    unfolding find_key
    find_key-set_self low high before = first_from-some _ lo n j (record {
      low = low;
      high = high;
      passes = rw (get_or-set_self m j c d room, str_eq_refl);
      first = λ i a b. rw (get_or-set_ne m j i c d (omega arith)) (before i a b);
    })

    -- A write changes the place of no key but the old and the new one of the cell.
    pub find_key-set_ne :
        (k : Str) → key (get_or m j d) ≢ k → key c ≢ k → find_key (set m j c) k ≡ find_key m k
    unfolding find_key
    find_key-set_ne k old new = first_from-congr _ _ lo n go
      where
        go :
            (i : ℕ)
            → lo ≤ i
            → i < lo + n
            → str_eq (key (get_or (set m j c) i d)) k ≡ str_eq (key (get_or m i d)) k
        go i a b = elim (ℕ_discrete j i) [
          | yes e ↦ rw (← e, get_or-set_self m j c d room, str_eq_ne _ _ new, str_eq_ne _ _ old)
          | no ne ↦ rw (get_or-set_ne m j i c d ne)
        ]

-- The same with what the cells hold: the loop returns the value of the first cell with the key.
module _ {ℓ} {A : Type ℓ} (key value : A → Str) (d : A) (lo n : ℕ) where
  unfoldable pub lookup : List A → Str → Option Str
  lookup m k = elim (find_key key d lo n m k) [ some i ↦ some (value (get_or m i d)) | none ↦ none ]

  module _ (m : List A) (fits : lo + n ≤ length m) (i : ℕ) (c : A) where
    -- The cell of a key is overwritten by one with the same key.
    pub lookup-set_found :
        find_key key d lo n m (key c) ≡ some i → lookup (set m i c) (key c) ≡ some (value c)
    unfolding lookup
    lookup-set_found h =
        let f = find_key-Found key d lo n m (key c) h in
        let room : i < length m = omega (arith, f.high) in
        rw (
          find_key-set_self key d lo n m i c room f.low f.high f.first,
          lookup,
          get_or-set_self m i c d room,
        )

    -- A key that is not there takes the first cell of another key.
    pub lookup-set_free :
        (free : Str)
        → find_key key d lo n m (key c) ≡ none
        → find_key key d lo n m free ≡ some i
        → lookup (set m i c) (key c) ≡ some (value c)
    unfolding lookup
    lookup-set_free free absent h =
        let f = find_key-Found key d lo n m free h in
        let room : i < length m = omega (arith, f.high) in
        rw (
          find_key-set_self key d lo n m i c room f.low f.high
              (λ j a b. find_key-none key d lo n m (key c) absent j a (omega (arith, f.high))),
          lookup,
          get_or-set_self m i c d room,
        )

    -- What other keys hold stays.
    pub lookup-set_ne :
        (old k : Str)
        → find_key key d lo n m old ≡ some i
        → old ≢ k
        → key c ≢ k
        → lookup (set m i c) k ≡ lookup m k
    unfolding lookup
    lookup-set_ne old k h ne new =
        let f = find_key-Found key d lo n m old h in
        let room : i < length m = omega (arith, f.high) in
        let was : key (get_or m i d) ≡ old = key_of_find key d lo n m old h in
        let differ : key (get_or m i d) ≢ k = λ e. ne (rw (← was) e) in
        rw (find_key-set_ne key d lo n m i c room k differ new, lookup)
          (elim (Option-cases (find_key key d lo n m k)) [
            | inl e ↦ rw (e, lookup)
            | inr (j, e) ↦
                let apart : i ≢ j = λ s. differ (rw s (key_of_find key d lo n m k e)) in
                rw (e, lookup, get_or-set_ne m i j c d apart)
          ])
