-- ===== src/A2/ReadyQueue/Ends.antt =====
-- The ends of the ready queue: adding at the tail and at the head, and taking the head
-- (a2/ready_queue.c).
use mathlib.Core.List.{append_assoc}
use mathlib.Core.Path.{subst}
use comp310_w.Prelude.{
  ℕ, zero, suc, ◌<◌, ◌≡◌, refl, ap, sym, ◌∙◌, ◌≢◌, ◌==◌, true, false, some, List, [], ◌∷◌, ◌++◌,
  arith, length, length-append,
}
use comp310_w.A2.Pcb.{Pcb}
use comp310_w.A2.Store.{Ptr, null, QueueNode, node, Cells, Store, done, write}
use comp310_w.A2.Store.Chain.{
  Nodes, first, has, Linked, IsQueue, Ends, ends, load-done, set_next-done, first-append,
  has-append, Linked-write, Linked-append, Linked-left, Linked-right, Distinct-apart,
  Distinct-append,
}
use comp310_w.A2.ReadyQueue.{
  last_node, ready_queue_add_to_tail, ready_queue_add_to_head, ready_queue_pop_head,
}

-- A list that is not empty has a last element.
pub unsnoc {ℓ} :
    {A : Type ℓ} (x : A) (xs : List A)
    → (front : List A) × (last : A) × (x ∷ xs ≡ front ++ last ∷ [])
unsnoc x [] = ([], x, refl)
unsnoc x (y ∷ ys) = let (front, last, e) = unsnoc y ys in (x ∷ front, last, ap (λ l. x ∷ l) e)

pub first_ne :
    (h : Cells) (stop : Ptr) (xs : Nodes) → Linked h stop xs → stop ≢ null → first xs stop ≢ null
first_ne h stop [] l ne = ne
first_ne h stop (x ∷ xs) l ne = l.0

-- The walk of `ready_queue_add_to_tail` stops at the last node.
last_node-done :
    (k : ℕ) (s : Store) (xs : Nodes) (q : Ptr) (b : Pcb)
    → Linked s.cells null (xs ++ (q, b) ∷ [])
    → length xs < k
    → last_node k (first xs q) s ≡ done q s
unfolding last_node
last_node-done zero s xs q b l fuel = absurd (omega arith)
last_node-done (suc k) s [] q b l fuel = rw (load-done q _ s (l.1) (l.0))
last_node-done (suc k) s ((p, c) ∷ xs) q b l fuel =
    rw (load-done p _ s (l.1) (l.0), first-append xs ((q, b) ∷ []) null)
      (let ne : first xs q ≢ null =
          first_ne s.cells q xs (Linked-left s.cells null xs ((q, b) ∷ []) l.2)
            ((Linked-right s.cells null xs ((q, b) ∷ []) l.2).0) in
        let stop : (first xs q == null) ≡ false = ground arith in
        rw stop (last_node-done k s xs q b l.2 (omega arith)))

-- The head of a queue that is not empty is no null pointer.
pub head_ne :
    (s : Store) (xs : Nodes) (q : Ptr) (b : Pcb) (rest : Nodes)
    → IsQueue s (xs ++ (q, b) ∷ rest)
    → (s.head ≡ first xs q) × ((s.head == null) ≡ false)
head_ne s xs q b rest is =
    let start : s.head ≡ first xs q = is.start ∙ first-append xs ((q, b) ∷ rest) null in
    let ne : first xs q ≢ null =
      first_ne s.cells q xs (Linked-left s.cells null xs ((q, b) ∷ rest) is.linked)
        ((Linked-right s.cells null xs ((q, b) ∷ rest) is.linked).0) in
    (start, ground arith)

module _ (s : Store) (new : Ptr) (n : QueueNode) (there : s.cells new ≡ some n)
    (ne : new ≢ null) where
  -- The cells behind `ready_queue_add_to_tail` at a queue that ends with `q`.
  abbrev linked_in : Ptr → Pcb → Cells
  linked_in q b = write (write s.cells q (some (node b new))) new (some (node (n.pcb) null))

  add_to_tail-done :
      (fuel : ℕ) (xs : Nodes) (q : Ptr) (b : Pcb)
      → IsQueue s (xs ++ (q, b) ∷ [])
      → new ≢ q
      → length xs < fuel
      → ready_queue_add_to_tail fuel new s ≡ done tt (record s { cells = linked_in q b })
  unfolding ready_queue_add_to_tail write
  add_to_tail-done fuel xs q b is apart enough =
      let last = Linked-right s.cells null xs ((q, b) ∷ []) is.linked in
      let (start, stop) = head_ne s xs q b [] is in
      let walk : last_node fuel s.head s ≡ done q s =
        subst (λ p. last_node fuel p s ≡ done q s) (sym start)
          (last_node-done fuel s xs q b is.linked enough) in
      let s1 : Store = record s { cells = write s.cells q (some (node b new)) } in
      rw (
        stop,
        walk,
        set_next-done q (node b null) s (last.1) (last.0) new,
        load-done q (node b new) s1 (ground arith) (last.0),
        set_next-done new n s1 (ground arith) ne null,
      )

  only :
      (xs : Nodes)
      → has new xs ≡ false
      → (a : Ptr) → has a ((new, n.pcb) ∷ []) ≡ true
      → has a xs ≡ false
  only xs out a i = let e : a ≡ new = ground arith in rw e out

  add_to_tail-snoc :
      (fuel : ℕ) (xs : Nodes) (q : Ptr) (b : Pcb)
      → IsQueue s (xs ++ (q, b) ∷ [])
      → has new (xs ++ (q, b) ∷ []) ≡ false
      → length xs < fuel
      → Ends
          (λ _ t. IsQueue t ((xs ++ (q, b) ∷ []) ++ (new, n.pcb) ∷ []))
          (ready_queue_add_to_tail fuel new s)
  unfolding write
  add_to_tail-snoc fuel xs q b is out enough =
      let last = Linked-right s.cells null xs ((q, b) ∷ []) is.linked in
      let front = Linked-left s.cells null xs ((q, b) ∷ []) is.linked in
      let apart : new ≢ q = ground (arith, has-append new xs ((q, b) ∷ [])) in
      let new_out : has new xs ≡ false = ground (arith, has-append new xs ((q, b) ∷ [])) in
      let q_out : has q xs ≡ false = Distinct-apart xs ((q, b) ∷ []) q is.distinct (ground arith) in
      let kept : Linked (linked_in q b) q xs =
        Linked-write _ q new _ xs (Linked-write s.cells q q _ xs front q_out) new_out in
      rw
        (
          add_to_tail-done fuel xs q b is apart enough,
          append_assoc xs ((q, b) ∷ []) ((new, n.pcb) ∷ []),
        )
        (ends (record {
          start =
              (head_ne s xs q b [] is).0 ∙ sym (first-append xs ((q, b) ∷ (new, n.pcb) ∷ []) null);
          linked =
              Linked-append (linked_in q b) null xs ((q, b) ∷ (new, n.pcb) ∷ []) kept
                (last.0, ground arith, (ne, ground arith, tt));
          distinct = rw (append_assoc xs ((q, b) ∷ []) ((new, n.pcb) ∷ [])) at (
              Distinct-append (xs ++ (q, b) ∷ []) ((new, n.pcb) ∷ []) is.distinct (refl, tt)
                (only (xs ++ (q, b) ∷ []) out));
        }))

  -- On any queue, `ready_queue_add_to_tail` puts a node that is not in it behind the last one.
  pub ready_queue_add_to_tail-append :
      (fuel : ℕ) (xs : Nodes)
      → IsQueue s xs
      → has new xs ≡ false
      → length xs < fuel
      → Ends (λ _ t. IsQueue t (xs ++ (new, n.pcb) ∷ [])) (ready_queue_add_to_tail fuel new s)
  unfolding ready_queue_add_to_tail write
  ready_queue_add_to_tail-append fuel [] is out enough =
      let empty : (s.head == null) ≡ true = ground (arith, is.start) in
      rw (empty, set_next-done new n (record s { head = new }) there ne null)
        (ends (record { start = refl; linked = (ne, ground arith, tt); distinct = (refl, tt) }))
  ready_queue_add_to_tail-append fuel (x ∷ xs) is out enough =
      let (front, (q, b), e) = unsnoc x xs in
      let short : length front < fuel =
        omega (arith, ap length e, length-append front ((q, b) ∷ []), enough) in
      subst
        (λ l. Ends (λ _ t. IsQueue t (l ++ (new, n.pcb) ∷ [])) (ready_queue_add_to_tail fuel new s))
        (sym e)
        (add_to_tail-snoc fuel front q b (subst (λ l. IsQueue s l) e is)
          (subst (λ l. has new l ≡ false) e out) short)

  -- `ready_queue_add_to_head` puts a node that is not in the queue before the first one.
  pub ready_queue_add_to_head-cons :
      (xs : Nodes)
      → IsQueue s xs
      → has new xs ≡ false
      → Ends (λ _ t. IsQueue t ((new, n.pcb) ∷ xs)) (ready_queue_add_to_head new s)
  unfolding ready_queue_add_to_head write
  ready_queue_add_to_head-cons [] is out =
      let empty : (s.head == null) ≡ true = ground (arith, is.start) in
      rw (empty, set_next-done new n (record s { head = new }) there ne null)
        (ends (record { start = refl; linked = (ne, ground arith, tt); distinct = (refl, tt) }))
  ready_queue_add_to_head-cons ((p, b) ∷ xs) is out =
      let (start, stop) = head_ne s [] p b xs is in
      rw (stop, set_next-done new n s there ne s.head)
        (ends (record {
          start = refl;
          linked = (ne, ground arith, Linked-write s.cells null new _ ((p, b) ∷ xs) is.linked out);
          distinct = (out, is.distinct);
        }))

-- On a queue with a first node, `ready_queue_pop_head` returns its address and leaves the rest;
-- the memory cells stay as they were.
pub ready_queue_pop_head-cons :
    (s : Store) (p : Ptr) (b : Pcb) (xs : Nodes)
    → IsQueue s ((p, b) ∷ xs)
    → Ends (λ q t. (q ≡ p) × IsQueue t xs × (t.cells ≡ s.cells)) (ready_queue_pop_head s)
unfolding ready_queue_pop_head
ready_queue_pop_head-cons s p b xs is =
    let (start, stop) = head_ne s [] p b xs is in
    let there : s.cells s.head ≡ some (node b (first xs null)) = ground (arith, is.linked) in
    let ne : s.head ≢ null = ground arith in
    rw (stop, load-done s.head _ s there ne)
      (ends (start, record { start = refl; linked = is.linked.2; distinct = is.distinct.1 }, refl))

-- On an empty queue it returns the null pointer and changes nothing.
pub ready_queue_pop_head-nil : (s : Store) → IsQueue s [] → ready_queue_pop_head s ≡ done null s
unfolding ready_queue_pop_head
ready_queue_pop_head-nil s is =
    let empty : (s.head == null) ≡ true = ground (arith, is.start) in
    rw empty (ap (λ p. done p s) is.start)
