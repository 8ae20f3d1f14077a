-- ===== src/A3/List/Remove.antt =====
-- A node goes out of a list (pop_head, pop_tail and remove_elem of a3/linked_list.c).
use native.Mathlib.Decide.{ℕ_discrete, dec_le}
use comp310_w.Prelude.{
  ℕ, suc, ◌-◌, ◌≤◌, ◌<◌, some, List, length, ◌≡◌, ◌≢◌, refl, sym, ◌∙◌, ap, ◌⊎◌, inl, inr, arith,
}
use comp310_w.A3.List.{Ptr, null, Store, LinkedList}
use comp310_w.A3.List.Nodes.{nth, IsList, remove_at, remove_at_low, remove_at_high}

-- The nodes `l` and `r` are neighbours now.
pub record Unlinked {D : Type 0} (s s' : Store D) (l r : Ptr) : Type 0 where
  pub next_left : s'.next l ≡ r
  pub next_other : (x : Ptr) → x ≢ l → s'.next x ≡ s.next x
  pub prev_right : s'.prev r ≡ l
  pub prev_other : (x : Ptr) → x ≢ r → s'.prev x ≡ s.prev x
  pub payload_same : (x : Ptr) → s'.payload x ≡ s.payload x

-- The elements without the one at an index.
pub record OneLess {D : Type 0} (k : ℕ) (xs ys : List D) : Type 0 where
  pub long : length xs ≡ suc (length ys)
  pub low : (i : ℕ) → i < k → nth ys i ≡ nth xs i
  pub high : (i : ℕ) → k ≤ i → nth ys i ≡ nth xs (suc i)

module _ {D : Type 0} (s s' : Store D) (list : LinkedList) (at : ℕ → Ptr) (xs ys : List D) (k : ℕ)
    (is_list : IsList s list at xs) (bound : k < length xs)
    (unlinked : Unlinked s s' (at k) (at (suc (suc k)))) (less : OneLess k xs ys) where
  abbrev at' : ℕ → Ptr
  at' = remove_at k at

  -- The place in the longer list that a place of the shorter one stands for.
  place : (i : ℕ) → (j : ℕ) × (at' i ≡ at j) × (((i ≡ j) × (j ≤ k)) ⊎ ((j ≡ suc i) × (k < i)))
  place i = elim (dec_le i k) [
    | yes l ↦ (i, remove_at_low k at i l, inl (refl, l))
    | no h ↦ (suc i, remove_at_high k at i (omega (arith, h)), inr (refl, omega (arith, h)))
  ]

  distinct' : (i j : ℕ) → i ≤ length xs → j ≤ length xs → at' i ≡ at' j → i ≡ j
  distinct' i j hi hj e =
      let (a, na, pa) = place i in
      let (b, nb, pb) = place j in
      let same : a ≡ b =
        is_list.distinct a b (ground (arith, pa)) (ground (arith, pb)) (sym na ∙ e ∙ nb) in
      ground (arith, pa, pb)

  there' : (i : ℕ) → i ≤ length xs → at' i ≢ null
  there' i h e = let (a, na, pa) = place i in is_list.there a (ground (arith, pa)) (sym na ∙ e)

  forth_old : (j : ℕ) → j ≤ length xs → j ≢ k → s'.next (at j) ≡ at (suc j)
  forth_old j h ne =
      unlinked.next_other (at j)
        (λ e. ne (is_list.distinct j k (omega arith) (omega (arith, bound)) e))
      ∙ is_list.forth j h

  back_old : (j : ℕ) → j ≤ length xs → j ≢ suc k → s'.prev (at (suc j)) ≡ at j
  back_old j h ne =
      unlinked.prev_other (at (suc j)) (λ e. ne (
        omega
          (arith, is_list.distinct (suc j) (suc (suc k)) (omega arith) (omega (arith, bound)) e)))
      ∙ is_list.back j h

  forth' : (i : ℕ) → i < length xs → s'.next (at' i) ≡ at' (suc i)
  forth' i h = elim (dec_le i k) [
    | no far ↦
        ap s'.next (remove_at_high k at i (omega (arith, far)))
        ∙ forth_old (suc i) (omega arith) (omega (arith, far))
        ∙ sym (remove_at_high k at (suc i) (omega (arith, far)))
    | yes l ↦ elim (ℕ_discrete i k) [
      | yes e ↦
          ap s'.next (remove_at_low k at i l ∙ ap at e)
          ∙ unlinked.next_left
          ∙ sym (remove_at_high k at (suc k) (omega arith))
          ∙ ap (λ n. at' (suc n)) (sym e)
      | no ne ↦
          ap s'.next (remove_at_low k at i l)
          ∙ forth_old i (omega arith) ne
          ∙ sym (remove_at_low k at (suc i) (omega (arith, ne)))
    ]
  ]

  back' : (i : ℕ) → i < length xs → s'.prev (at' (suc i)) ≡ at' i
  back' i h = elim (dec_le i k) [
    | no far ↦
        ap s'.prev (remove_at_high k at (suc i) (omega (arith, far)))
        ∙ back_old (suc i) (omega arith) (omega (arith, far))
        ∙ sym (remove_at_high k at i (omega (arith, far)))
    | yes l ↦ elim (ℕ_discrete i k) [
      | yes e ↦
          ap (λ n. s'.prev (at' (suc n))) e
          ∙ ap s'.prev (remove_at_high k at (suc k) (omega arith))
          ∙ unlinked.prev_right
          ∙ sym (remove_at_low k at k (omega arith))
          ∙ ap at' (sym e)
      | no ne ↦
          ap s'.prev (remove_at_low k at (suc i) (omega (arith, ne)))
          ∙ back_old i (omega arith) (omega (arith, l, ne))
          ∙ sym (remove_at_low k at i l)
    ]
  ]

  old_element : (j : ℕ) → j < length xs → nth xs j ≡ some (s'.payload (at (suc j)))
  old_element j h = is_list.elements j h ∙ ap some (sym (unlinked.payload_same (at (suc j))))

  elements' : (i : ℕ) → suc i < length xs → nth ys i ≡ some (s'.payload (at' (suc i)))
  elements' i h = elim (dec_le (suc i) k) [
    | yes l ↦
        less.low i l
        ∙ old_element i (omega arith)
        ∙ ap (λ p. some (s'.payload p)) (sym (remove_at_low k at (suc i) l))
    | no far ↦
        less.high i (omega (arith, far))
        ∙ old_element (suc i) h
        ∙ ap (λ p. some (s'.payload p)) (sym (remove_at_high k at (suc i) (omega (arith, far))))
  ]

  -- The structure stands for the elements without that one.
  pub IsList-remove_at : IsList s' (record list { size = list.size - 1 }) (remove_at k at) ys
  IsList-remove_at = record {
    head = remove_at_low k at 0 (omega arith) ∙ is_list.head;
    tail =
        remove_at_high k at (suc (length ys)) (omega (arith, bound, less.long))
        ∙ ap (λ n. at (suc n)) (sym (less.long))
        ∙ is_list.tail;
    size = omega (arith, is_list.size, less.long);
    forth = λ i h. forth' i (omega (arith, less.long, h));
    back = λ i h. back' i (omega (arith, less.long, h));
    distinct =
        λ i j hi hj. distinct' i j (omega (arith, less.long, hi)) (omega (arith, less.long, hj));
    there = λ i h. there' i (omega (arith, less.long, h));
    final =
        unlinked.next_other list.dummy_tail (λ e.
          let far =
            is_list.distinct (suc (length xs)) k (omega arith) (omega (arith, bound))
              (is_list.tail ∙ e) in
          absurd (omega (arith, far, bound)))
        ∙ is_list.final;
    elements = λ i h. elements' i (omega (arith, less.long, h));
  }
