-- ===== src/A3/List/Insert.antt =====
-- A node comes into a list (add_tail and add_head of a3/linked_list.c).
use native.Mathlib.Decide.{ℕ_discrete, dec_le}
use comp310_w.Prelude.{
  ℕ, zero, suc, ◌+◌, ◌-◌, ◌≤◌, ◌<◌, some, List, length, ◌≡◌, ◌≢◌, refl, sym, ◌∙◌, ap, ◌⊎◌, inl, inr,
  arith,
}
use comp310_w.A3.List.{Ptr, null, Store, LinkedList}
use comp310_w.A3.List.Nodes.{nth, IsList, insert_at, insert_at_low, insert_at_here, insert_at_high}

-- The node `new` with the data `d` comes between the nodes `l` and `r`.
pub record Linked {D : Type 0} (s s' : Store D) (l new r : Ptr) (d : D) : Type 0 where
  pub next_left : s'.next l ≡ new
  pub next_new : s'.next new ≡ r
  pub next_other : (x : Ptr) → x ≢ l → x ≢ new → s'.next x ≡ s.next x
  pub prev_right : s'.prev r ≡ new
  pub prev_new : s'.prev new ≡ l
  pub prev_other : (x : Ptr) → x ≢ r → x ≢ new → s'.prev x ≡ s.prev x
  pub payload_new : s'.payload new ≡ d
  pub payload_other : (x : Ptr) → x ≢ new → s'.payload x ≡ s.payload x

-- The elements with one more at an index.
pub record OneMore {D : Type 0} (k : ℕ) (d : D) (xs ys : List D) : Type 0 where
  pub long : length ys ≡ suc (length xs)
  pub low : (i : ℕ) → i < k → nth ys i ≡ nth xs i
  pub here : nth ys k ≡ some d
  pub high : (i : ℕ) → k ≤ i → nth ys (suc i) ≡ nth xs i

-- Where a place of the longer list comes from.
data Source (k i : ℕ) : Type 0 where
  low : i ≤ k → Source k i
  here : i ≡ suc k → Source k i
  high : (j : ℕ) → i ≡ suc j → k < j → Source k i

source : (k i : ℕ) → Source k i
source k zero = low (omega arith)
source k (suc i) = elim (dec_le (suc i) k) [
  | yes h ↦ low h
  | no h ↦ elim (ℕ_discrete i k) [
    | yes e ↦ here (ap suc e)
    | no ne ↦ high i refl (omega (arith, ne))
  ]
]

module _ {D : Type 0} (s s' : Store D) (list : LinkedList) (at : ℕ → Ptr) (xs ys : List D) (k : ℕ)
    (new : Ptr) (d : D) (is_list : IsList s list at xs) (bound : k ≤ length xs)
    (unused : (i : ℕ) → i ≤ suc (length xs) → at i ≢ new) (valid : new ≢ null)
    (linked : Linked s s' (at k) new (at (suc k)) d) (more : OneMore k d xs ys) where
  abbrev at' : ℕ → Ptr
  at' = insert_at k new at

  -- The place in the shorter list that a place of the longer one stands for.
  place :
      (i : ℕ)
      → i ≤ suc (suc (length xs))
      → ((i ≡ suc k) × (at' i ≡ new))
        ⊎ ((j : ℕ) × (at' i ≡ at j)
            × (j ≤ suc (length xs))
            × (((i ≡ j) × (j ≤ k)) ⊎ ((i ≡ suc j) × (k < j))))
  place i h = elim (source k i) [
    | low l ↦ inr (i, insert_at_low k new at i l, omega arith, inl (refl, l))
    | here e ↦ inl (e, ap at' e ∙ insert_at_here k new at)
    | high j e l ↦ inr (j, ap at' e ∙ insert_at_high k new at j l, omega arith, inr (e, l))
  ]

  distinct' :
      (i j : ℕ) → i ≤ suc (suc (length xs)) → j ≤ suc (suc (length xs)) → at' i ≡ at' j → i ≡ j
  distinct' i j hi hj e = elim (place i hi) [
    | inl (ei, ni) ↦ elim (place j hj) [
      | inl (ej, nj) ↦ ei ∙ sym ej
      | inr (b, nj, hb, _) ↦ absurd (unused b hb (sym nj ∙ sym e ∙ ni))
    ]
    | inr (a, ni, ha, pi) ↦ elim (place j hj) [
      | inl (ej, nj) ↦ absurd (unused a ha (sym ni ∙ e ∙ nj))
      | inr (b, nj, hb, pj) ↦
          let same : a ≡ b = is_list.distinct a b ha hb (sym ni ∙ e ∙ nj) in ground (arith, pi, pj)
    ]
  ]

  there' : (i : ℕ) → i ≤ suc (suc (length xs)) → at' i ≢ null
  there' i h e = elim (place i h) [
    | inl (_, n) ↦ valid (sym n ∙ e)
    | inr (j, n, hj, _) ↦ is_list.there j hj (sym n ∙ e)
  ]

  -- The neighbours of an old node.
  forth_old : (j : ℕ) → j ≤ length xs → j ≢ k → s'.next (at j) ≡ at (suc j)
  forth_old j h ne =
      linked.next_other (at j) (λ e. ne (is_list.distinct j k (omega arith) (omega arith) e))
        (unused j (omega arith))
      ∙ is_list.forth j h

  back_old : (j : ℕ) → j ≤ length xs → j ≢ k → s'.prev (at (suc j)) ≡ at j
  back_old j h ne =
      linked.prev_other (at (suc j))
        (λ e. ne (omega (arith, is_list.distinct (suc j) (suc k) (omega arith) (omega arith) e)))
        (unused (suc j) (omega arith))
      ∙ is_list.back j h

  forth' : (i : ℕ) → i ≤ suc (length xs) → s'.next (at' i) ≡ at' (suc i)
  forth' i h = elim (source k i) [
    | here e ↦
        ap s'.next (ap at' e ∙ insert_at_here k new at)
        ∙ linked.next_new
        ∙ sym (insert_at_high k new at (suc k) (omega arith))
        ∙ ap (λ n. at' (suc n)) (sym e)
    | high j e l ↦
        ap s'.next (ap at' e ∙ insert_at_high k new at j l)
        ∙ forth_old j (omega (arith, e)) (omega (arith, l))
        ∙ sym (insert_at_high k new at (suc j) (omega arith))
        ∙ ap (λ n. at' (suc n)) (sym e)
    | low l ↦ elim (ℕ_discrete i k) [
      | yes e ↦
          ap s'.next (insert_at_low k new at i l ∙ ap at e)
          ∙ linked.next_left
          ∙ sym (insert_at_here k new at)
          ∙ ap (λ n. at' (suc n)) (sym e)
      | no ne ↦
          ap s'.next (insert_at_low k new at i l)
          ∙ forth_old i (omega arith) ne
          ∙ sym (insert_at_low k new at (suc i) (omega (arith, ne)))
    ]
  ]

  back' : (i : ℕ) → i ≤ suc (length xs) → s'.prev (at' (suc i)) ≡ at' i
  back' i h = elim (source k i) [
    | here e ↦
        ap (λ n. s'.prev (at' (suc n))) e
        ∙ ap s'.prev (insert_at_high k new at (suc k) (omega arith))
        ∙ linked.prev_right
        ∙ sym (insert_at_here k new at)
        ∙ ap at' (sym e)
    | high j e l ↦
        ap (λ n. s'.prev (at' (suc n))) e
        ∙ ap s'.prev (insert_at_high k new at (suc j) (omega arith))
        ∙ back_old j (omega (arith, e)) (omega (arith, l))
        ∙ sym (insert_at_high k new at j l)
        ∙ ap at' (sym e)
    | low l ↦ elim (ℕ_discrete i k) [
      | yes e ↦
          ap (λ n. s'.prev (at' (suc n))) e
          ∙ ap s'.prev (insert_at_here k new at)
          ∙ linked.prev_new
          ∙ sym (insert_at_low k new at k (omega arith))
          ∙ ap at' (sym e)
      | no ne ↦
          ap s'.prev (insert_at_low k new at (suc i) (omega (arith, ne)))
          ∙ back_old i (omega arith) ne
          ∙ sym (insert_at_low k new at i l)
    ]
  ]

  old_element : (j : ℕ) → j < length xs → nth xs j ≡ some (s'.payload (at (suc j)))
  old_element j h =
      is_list.elements j h
      ∙ ap some (sym (linked.payload_other (at (suc j)) (unused (suc j) (omega arith))))

  elements' : (i : ℕ) → i < suc (length xs) → nth ys i ≡ some (s'.payload (at' (suc i)))
  elements' i h = elim (source k (suc i)) [
    | here e ↦
        let same : i ≡ k = omega (arith, e) in
        ap (nth ys) same
        ∙ more.here
        ∙ ap some (sym (linked.payload_new))
        ∙ ap (λ p. some (s'.payload p)) (sym (insert_at_here k new at))
        ∙ ap (λ n. some (s'.payload (at' n))) (sym e)
    | low l ↦
        more.low i l
        ∙ old_element i (omega arith)
        ∙ ap (λ p. some (s'.payload p)) (sym (insert_at_low k new at (suc i) l))
    | high j e l ↦
        let before : j ≡ suc (j - 1) = omega (arith, l) in
        let same : i ≡ suc (j - 1) = omega (arith, e, l) in
        ap (nth ys) same
        ∙ more.high (j - 1) (omega (arith, l))
        ∙ old_element (j - 1) (omega (arith, e, l))
        ∙ ap (λ n. some (s'.payload (at n))) (sym before)
        ∙ ap (λ p. some (s'.payload p)) (sym (insert_at_high k new at j l))
        ∙ ap (λ n. some (s'.payload (at' n))) (sym e)
  ]

  -- The structure stands for the elements with the new one at its place.
  pub IsList-insert_at : IsList s' (record list { size = list.size + 1 }) (insert_at k new at) ys
  IsList-insert_at = record {
    head = insert_at_low k new at 0 (omega arith) ∙ is_list.head;
    tail =
        ap (λ n. at' (suc n)) (more.long)
        ∙ insert_at_high k new at (suc (length xs)) (omega (arith, bound))
        ∙ is_list.tail;
    size = omega (arith, is_list.size, more.long);
    forth = λ i h. forth' i (omega (arith, more.long, h));
    back = λ i h. back' i (omega (arith, more.long, h));
    distinct =
        λ i j hi hj. distinct' i j (omega (arith, more.long, hi)) (omega (arith, more.long, hj));
    there = λ i h. there' i (omega (arith, more.long, h));
    final =
        linked.next_other list.dummy_tail
          (λ e.
            let far =
              is_list.distinct (suc (length xs)) k (omega arith) (omega (arith, bound))
                (is_list.tail ∙ e) in
            absurd (omega (arith, far, bound)))
          (λ e. unused (suc (length xs)) (omega arith) (is_list.tail ∙ e))
        ∙ is_list.final;
    elements = λ i h. elements' i (omega (arith, more.long, h));
  }
