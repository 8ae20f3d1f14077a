-- ===== src/A3/List/Ends.antt =====
-- The lists of a3/linked_list.c at their two ends: initialising, adding and popping.
use mathlib.Core.Path.{subst}
use comp310_w.Prelude.{
  ℕ, zero, suc, ◌+◌, ◌-◌, ◌≤◌, ◌==◌, if◌then◌else◌, none, some, List, [], ◌∷◌, ◌++◌, length,
  length-append, ◌≡◌, ◌≢◌, refl, sym, ◌∙◌, ap, arith,
}
use comp310_w.Prelude.Update.{update, update_self, update_ne}
use comp310_w.A3.List.{Ptr, null, Store, LinkedList, add_tail, add_head, list_init}
use comp310_w.A3.List.Nodes.{nth, nth_append_left, nth_append_right, IsList, insert_at}
use comp310_w.A3.List.Insert.{Linked, OneMore, IsList-insert_at}
use comp310_w.A3.List.Remove.{OneLess}

-- The two dummy nodes alone.
abbrev pub two_nodes : Ptr → Ptr → ℕ → Ptr
two_nodes head tail i = if i == 0 then head else tail

module _ {D : Type 0} where
  pub OneMore-cons : (d : D) (xs : List D) → OneMore 0 d xs (d ∷ xs)
  OneMore-cons d xs = record {
    long = refl;
    low = λ i h. absurd (omega arith);
    here = refl;
    high = λ i h. refl;
  }

  pub nth_length : (ys : List D) (d : D) (zs : List D) → nth (ys ++ d ∷ zs) (length ys) ≡ some d
  nth_length ys d zs =
      let e : length ys ≡ length ys + 0 = omega arith in
      ap (nth (ys ++ d ∷ zs)) e ∙ nth_append_right ys (d ∷ zs) 0

  pub OneMore-append : (d : D) (xs : List D) → OneMore (length xs) d xs (xs ++ d ∷ [])
  OneMore-append d xs = record {
    long = omega (arith, length-append xs (d ∷ []));
    low = λ i h. nth_append_left xs (d ∷ []) i h;
    here = nth_length xs d [];
    high = λ i h.
        let e : suc i ≡ length xs + suc (i - length xs) = omega (arith, h) in
        ap (nth (xs ++ d ∷ [])) e
        ∙ nth_append_right xs (d ∷ []) (suc (i - length xs))
        ∙ sym (nth_beyond xs i h);
  }
    where
      nth_beyond : (xs : List D) (i : ℕ) → length xs ≤ i → nth xs i ≡ none
      nth_beyond [] i h = refl
      nth_beyond (x ∷ xs) zero h = absurd (omega arith)
      nth_beyond (x ∷ xs) (suc i) h = nth_beyond xs i (omega arith)

  pub OneLess-middle :
      (ys : List D) (d : D) (zs : List D) → OneLess (length ys) (ys ++ d ∷ zs) (ys ++ zs)
  OneLess-middle ys d zs = record {
    long = omega (arith, length-append ys (d ∷ zs), length-append ys zs);
    low = λ i h. nth_append_left ys zs i h ∙ sym (nth_append_left ys (d ∷ zs) i h);
    high = λ i h.
        let e : i ≡ length ys + (i - length ys) = omega (arith, h) in
        let e2 : length ys + suc (i - length ys) ≡ suc i = omega (arith, h) in
        ap (nth (ys ++ zs)) e
        ∙ nth_append_right ys zs (i - length ys)
        ∙ sym (nth_append_right ys (d ∷ zs) (suc (i - length ys)))
        ∙ ap (nth (ys ++ d ∷ zs)) e2;
  }

  -- `list_init` gives an empty list, if `malloc` has returned two different nodes.
  pub list_init-IsList :
      (head tail : Ptr) (s : Store D)
      → head ≢ null
      → tail ≢ null
      → head ≢ tail
      → IsList ((list_init head tail s).1) ((list_init head tail s).0) (two_nodes head tail) []
  unfolding list_init
  list_init-IsList head tail s h t ne = record {
    head = refl;
    tail = refl;
    size = refl;
    forth = λ i b.
        let first : i ≡ 0 = omega arith in
        rw first (update_self (update s.next tail null) head tail);
    back = λ i b. let first : i ≡ 0 = omega arith in rw first (update_self s.prev tail head);
    distinct = λ i j hi hj e. ground (arith, ne, h, t, e);
    there = λ i b. ground (arith, h, t);
    final = update_ne (update s.next tail null) head tail tail ne ∙ update_self s.next tail null;
    elements = λ i b. absurd (omega arith);
  }

-- Two fields of nodes are written, one after the other.
module _ {A : Type 0} (f : ℕ → A) (a b : ℕ) (v w : A) where
  pub twice_second : update (update f a v) b w b ≡ w
  twice_second = update_self (update f a v) b w

  pub twice_first : b ≢ a → update (update f a v) b w a ≡ v
  twice_first h = update_ne (update f a v) b a w h ∙ update_self f a v

  pub twice_other : (x : ℕ) → x ≢ a → x ≢ b → update (update f a v) b w x ≡ f x
  twice_other x ha hb =
      update_ne (update f a v) b x w (λ e. hb (sym e)) ∙ update_ne f a x v (λ e. ha (sym e))

module _ {D : Type 0} (s : Store D) (list : LinkedList) (at : ℕ → Ptr) (xs : List D)
    (is_list : IsList s list at xs) where
  module _ (new : Ptr) (valid : new ≢ null) (unused : (i : ℕ) → i ≤ suc (length xs) → at i ≢ new)
      (d : D) where
    tail_prev : s.prev list.dummy_tail ≡ at (length xs)
    tail_prev = ap s.prev (sym (is_list.tail)) ∙ is_list.back (length xs) (omega arith)

    head_next : s.next list.dummy_head ≡ at 1
    head_next = ap s.next (sym (is_list.head)) ∙ is_list.forth 0 (omega arith)

    add_tail-Linked :
        Linked s ((add_tail new d list s).1) (s.prev list.dummy_tail) new list.dummy_tail d
    unfolding add_tail
    add_tail-Linked =
        let l = s.prev list.dummy_tail in
        let r = list.dummy_tail in
        let not_left : new ≢ l = λ e. unused (length xs) (omega arith) (sym tail_prev ∙ sym e) in
        let not_right : r ≢ new = λ e. unused (suc (length xs)) (omega arith) (is_list.tail ∙ e) in
        record {
          next_left = twice_first s.next l new new r not_left;
          next_new = twice_second s.next l new new r;
          next_other = λ x. twice_other s.next l new new r x;
          prev_right = twice_second s.prev new r l new;
          prev_new = twice_first s.prev new r l new not_right;
          prev_other = λ x a b. twice_other s.prev new r l new x b a;
          payload_new = update_self s.payload new d;
          payload_other = λ x a. update_ne s.payload new x d (λ e. a (sym e));
        }

    add_head-Linked :
        Linked s ((add_head new d list s).1) list.dummy_head new (s.next list.dummy_head) d
    unfolding add_head
    add_head-Linked =
        let l = list.dummy_head in
        let r = s.next list.dummy_head in
        let not_left : l ≢ new = λ e. unused 0 (omega arith) (is_list.head ∙ e) in
        let not_right : new ≢ r = λ e. unused 1 (omega arith) (sym head_next ∙ sym e) in
        record {
          next_left = twice_second s.next new l r new;
          next_new = twice_first s.next new l r new not_left;
          next_other = λ x a b. twice_other s.next new l r new x b a;
          prev_right = twice_first s.prev r new new l not_right;
          prev_new = twice_second s.prev r new new l;
          prev_other = λ x. twice_other s.prev r new new l x;
          payload_new = update_self s.payload new d;
          payload_other = λ x a. update_ne s.payload new x d (λ e. a (sym e));
        }

    -- On a structure of nodes that stands for the elements `xs`, given a new node that is not null and
    -- none of those, `add_tail` leaves a structure that stands for `xs ++ d ∷ []`.
    pub add_tail-IsList :
        IsList
          ((add_tail new d list s).1)
          ((add_tail new d list s).0)
          (insert_at (length xs) new at)
          (xs ++ d ∷ [])
    unfolding add_tail
    add_tail-IsList =
        let linked : Linked s ((add_tail new d list s).1) (at (length xs)) new
            (at (suc (length xs))) d =
          subst (λ l. Linked s ((add_tail new d list s).1) l new (at (suc (length xs))) d) tail_prev
            (subst (λ r. Linked s ((add_tail new d list s).1) (s.prev list.dummy_tail) new r d)
              (sym (is_list.tail)) add_tail-Linked) in
        IsList-insert_at s ((add_tail new d list s).1) list at xs (xs ++ d ∷ []) (length xs) new d
          is_list (omega arith) unused valid linked (OneMore-append d xs)

    -- `add_head` leaves one that stands for `d ∷ xs`.
    pub add_head-IsList :
        IsList ((add_head new d list s).1) ((add_head new d list s).0) (insert_at 0 new at) (d ∷ xs)
    unfolding add_head
    add_head-IsList =
        let linked : Linked s ((add_head new d list s).1) (at 0) new (at 1) d =
          subst (λ l. Linked s ((add_head new d list s).1) l new (at 1) d) (sym (is_list.head))
            (subst (λ r. Linked s ((add_head new d list s).1) list.dummy_head new r d) head_next
              add_head-Linked) in
        IsList-insert_at s ((add_head new d list s).1) list at xs (d ∷ xs) 0 new d is_list
          (omega arith) unused valid linked (OneMore-cons d xs)
