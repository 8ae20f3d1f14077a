-- ===== src/A3/List/Pops.antt =====
-- The lists of a3/linked_list.c lose a node: pop_head, pop_tail, remove_elem and list_clear.
use mathlib.Core.Path.{subst}
use mathlib.Core.List.{append-nil}
use mathlib.Core.Option.{some-injective}
use comp310_w.Prelude.{
  ℕ, suc, ◌+◌, ◌==◌, true, false, List, [], ◌∷◌, ◌++◌, length, length-append, ◌≡◌, ◌≢◌, refl, sym,
  ◌∙◌, ap, arith,
}
use comp310_w.Prelude.Update.{update, update_self, update_ne}
use comp310_w.A3.List.{
  Ptr, null, Store, LinkedList, Outcome, done, exited, unlink, delete, pop_head, pop_tail,
  list_clear,
}
use comp310_w.A3.List.Nodes.{IsList, remove_at}
use comp310_w.A3.List.Remove.{Unlinked, IsList-remove_at}
use comp310_w.A3.List.Ends.{OneLess-middle, nth_length, two_nodes}

module _ {D : Type 0} where
  -- `unlink` makes the neighbours of a node neighbours of each other.
  unlink-Unlinked :
      (s : Store D) (node : Ptr)
      → s.prev node ≢ node
      → Unlinked s (unlink node s) (s.prev node) (s.next node)
  unfolding unlink
  unlink-Unlinked s node apart =
      let same : update s.next (s.prev node) (s.next node) node ≡ s.next node =
        update_ne s.next (s.prev node) node (s.next node) apart in
      record {
        next_left = update_self s.next (s.prev node) (s.next node);
        next_other = λ x a. update_ne s.next (s.prev node) x (s.next node) (λ e. a (sym e));
        prev_right = rw same (update_self s.prev (s.next node) (s.prev node));
        prev_other =
            λ x a. rw same (update_ne s.prev (s.next node) x (s.prev node) (λ e. a (sym e)));
        payload_same = λ x. refl;
      }

  -- `delete` of the node of an element takes it out of the list and returns it.
  module _ (s : Store D) (list : LinkedList) (at : ℕ → Ptr) (ys : List D) (d : D) (zs : List D)
      (is_list : IsList s list at (ys ++ d ∷ zs)) where
    abbrev k : ℕ
    k = length ys

    long : length (ys ++ d ∷ zs) ≡ k + suc (length zs)
    long = length-append ys (d ∷ zs)

    unlinked :
        (node : Ptr) → node ≡ at (suc k) → Unlinked s (unlink node s) (at k) (at (suc (suc k)))
    unlinked node e =
        let before : s.prev node ≡ at k = ap s.prev e ∙ is_list.back k (omega (arith, long)) in
        let after : s.next node ≡ at (suc (suc k)) =
          ap s.next e ∙ is_list.forth (suc k) (omega (arith, long)) in
        let apart : s.prev node ≢ node = λ same.
          let one =
            is_list.distinct k (suc k) (omega (arith, long)) (omega (arith, long))
              (sym before ∙ same ∙ e) in
          absurd (omega (arith, one)) in
        subst (λ l. Unlinked s (unlink node s) l (at (suc (suc k)))) before
          (subst (λ r. Unlinked s (unlink node s) (s.prev node) r) after
            (unlink-Unlinked s node apart))

    pub delete-IsList :
        (node : Ptr)
        → node ≡ at (suc k)
        → IsList
            (((delete node list s).1).1)
            (((delete node list s).1).0)
            (remove_at k at)
            (ys ++ zs)
    delete-IsList node e =
        IsList-remove_at s (unlink node s) list at (ys ++ d ∷ zs) (ys ++ zs) k is_list
          (omega (arith, long)) (unlinked node e) (OneLess-middle ys d zs)

    pub delete_value : (node : Ptr) → node ≡ at (suc k) → (delete node list s).0 ≡ d
    delete_value node e =
        (unlinked node e).payload_same node
        ∙ ap s.payload e
        ∙ some-injective (s.payload (at (suc k))) d
            (sym (is_list.elements k (omega (arith, long))) ∙ nth_length ys d zs)

-- A call returns the element `d` and leaves a structure for the elements `xs`.
pub record Returned {D : Type 0} (outcome : Outcome (D × (LinkedList × Store D))) (d : D)
    (at : ℕ → Ptr) (xs : List D) : Type 0 where
  pub list : LinkedList
  pub store : Store D
  pub result : outcome ≡ done (d, (list, store))
  pub is_list : IsList store list at xs

module _ {D : Type 0} (s : Store D) (list : LinkedList) (at : ℕ → Ptr) where
  pub delete-Returned :
      (ys : List D) (d : D) (zs : List D) (node : Ptr)
      → IsList s list at (ys ++ d ∷ zs)
      → node ≡ at (suc (length ys))
      → Returned (done (delete node list s)) d (remove_at (length ys) at) (ys ++ zs)
  delete-Returned ys d zs node is_list e = record {
    list = ((delete node list s).1).0;
    store = ((delete node list s).1).1;
    result =
        ap (λ v. done (v, (delete node list s).1)) (delete_value s list at ys d zs is_list node e);
    is_list = delete-IsList s list at ys d zs is_list node e;
  }

  -- On a structure that stands for `d ∷ xs`, `pop_head` returns `d` and leaves one for `xs`.
  pub pop_head-Returned :
      (d : D) (xs : List D)
      → IsList s list at (d ∷ xs)
      → Returned (pop_head list s) d (remove_at 0 at) xs
  unfolding pop_head
  pop_head-Returned d xs is_list =
      let filled : (list.size == 0) ≡ false = ground (arith, is_list.size) in
      rw filled (
        delete-Returned [] d xs (s.next list.dummy_head) is_list
          (ap s.next (sym (is_list.head)) ∙ is_list.forth 0 (omega arith)))

  -- On a structure that stands for `xs ++ d ∷ []`, `pop_tail` returns `d` and leaves a structure, with
  -- the same dummy nodes and without the node of `d`, that stands for `xs`.
  pub pop_tail-Returned :
      (xs : List D) (d : D)
      → IsList s list at (xs ++ d ∷ [])
      → Returned (pop_tail list s) d (remove_at (length xs) at) xs
  unfolding pop_tail
  pop_tail-Returned xs d is_list =
      let long = length-append xs (d ∷ []) in
      let filled : (list.size == 0) ≡ false = ground (arith, is_list.size, long) in
      let at_end : at (suc (suc (length xs))) ≡ list.dummy_tail =
        ap (λ n. at (suc n)) (omega (arith, long)) ∙ is_list.tail in
      let last : s.prev list.dummy_tail ≡ at (suc (length xs)) =
        ap s.prev (sym at_end) ∙ is_list.back (suc (length xs)) (omega (arith, long)) in
      rw filled (
        subst
          (Returned (done (delete (s.prev list.dummy_tail) list s)) d (remove_at (length xs) at))
          (append-nil xs) (delete-Returned xs d [] (s.prev list.dummy_tail) is_list last))

  -- On an empty list both end the program.
  pub pop-exited : IsList s list at [] → (pop_head list s ≡ exited) × (pop_tail list s ≡ exited)
  unfolding pop_head pop_tail
  pop-exited is_list =
      let empty : (list.size == 0) ≡ true = ground (arith, is_list.size) in rw empty (refl, refl)

  -- `list_clear` leaves the two dummy nodes.
  pub list_clear-IsList :
      (xs : List D)
      → IsList s list at xs
      → IsList
          ((list_clear list s).1)
          ((list_clear list s).0)
          (two_nodes list.dummy_head list.dummy_tail)
          []
  unfolding list_clear
  list_clear-IsList xs is_list =
      let far : list.dummy_head ≢ list.dummy_tail = λ e. absurd (
        omega (
          arith,
          is_list.distinct 0 (suc (length xs)) (omega arith) (omega arith)
              (is_list.head ∙ e ∙ sym (is_list.tail)),
        )) in
      let head_there : list.dummy_head ≢ null =
        λ e. is_list.there 0 (omega arith) (is_list.head ∙ e) in
      let tail_there : list.dummy_tail ≢ null =
        λ e. is_list.there (suc (length xs)) (omega arith) (is_list.tail ∙ e) in
      record {
        head = refl;
        tail = refl;
        size = refl;
        forth = λ i b.
            let first : i ≡ 0 = omega arith in
            rw first (update_self s.next list.dummy_head list.dummy_tail);
        back = λ i b.
            let first : i ≡ 0 = omega arith in
            rw first (update_self s.prev list.dummy_tail list.dummy_head);
        distinct = λ i j hi hj e. ground (arith, far, e);
        there = λ i b. ground (arith, head_there, tail_there);
        final =
            update_ne s.next list.dummy_head list.dummy_tail list.dummy_tail far ∙ is_list.final;
        elements = λ i b. absurd (omega arith);
      }
