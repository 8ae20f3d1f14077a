-- ===== src/A2/ReadyQueue/Swap.antt =====
-- `ready_queue_swap_with_next` of a2/ready_queue.c, on the cells and on the sequence of nodes.
pub mod Search
use mathlib.Core.List.{append_assoc}
use mathlib.Core.Path.{subst}
use comp310_w.Prelude.{
  ℕ, zero, suc, ◌+◌, ◌<◌, ◌≡◌, refl, ap, sym, ◌∙◌, ◌≢◌, ◌==◌, true, false, some, [], ◌∷◌, ◌++◌,
  arith, length, length-append,
}
use comp310_w.A2.Pcb.{Pcb}
use comp310_w.A2.Store.{Ptr, null, node, Cells, Store, done, write}
use comp310_w.A2.Store.Chain.{
  Nodes, first, has, Distinct, Linked, IsQueue, Ends, ends, load-done, set_next-done, first-append,
  Linked-write, Linked-append, Linked-left, Linked-right, Distinct-right, not_has-cons,
  first_ne_of_not_has, has-first, has-later, write_ne, Distinct-apart, Distinct-swap,
}
use comp310_w.A2.ReadyQueue.{find_before, swap_head, ready_queue_swap_with_next}
use comp310_w.A2.ReadyQueue.Ends.{unsnoc, head_ne}
use comp310_w.A2.ReadyQueue.Swap.Search.{find_before-null, find_before-done}

-- The nodes p and q and, before them, r. The three writes of the loop's end.
abbrev swapped : Cells → Ptr → Pcb → Ptr → Pcb → Ptr → Pcb → Ptr → Cells
swapped h r c p a q b end =
    write (write (write h r (some (node c q))) q (some (node b p))) p (some (node a end))

abbrev swapped_first : Cells → Ptr → Pcb → Ptr → Pcb → Ptr → Cells
swapped_first h p a q b end = write (write h p (some (node a end))) q (some (node b p))

abbrev store : Ptr → Cells → Store
store p h = record { head = p; cells = h }

module _ (h : Cells) (p q : Ptr) (a b : Pcb) (rest : Nodes) where
  abbrev after_head : Cells
  after_head = swapped_first h p a q b (first rest null)

  -- The two nodes have changed places and the rest is as it was.
  swapped_first-Linked :
      Linked h null ((p, a) ∷ (q, b) ∷ rest)
      → Distinct ((p, a) ∷ (q, b) ∷ rest)
      → Linked after_head null ((q, b) ∷ (p, a) ∷ rest)
  unfolding write
  swapped_first-Linked l d =
      let (apart, p_out) = not_has-cons p q b rest d.0 in
      let kept : Linked after_head null rest =
        Linked-write _ null q _ rest (Linked-write h null p _ rest (l.2.2) p_out) (d.1.0) in
      (l.2.0, ground arith, (l.0, ground arith, kept))

  swap_head-done :
      Linked h null ((p, a) ∷ (q, b) ∷ rest)
      → p ≢ q
      → swap_head p (store p h) ≡ done tt (store q after_head)
  unfolding swap_head write
  swap_head-done l apart =
      let t : Store = store p (write h p (some (node a (first rest null)))) in
      rw (
        load-done p (node a q) (store p h) (l.1) (l.0),
        load-done q (node b (first rest null)) (store p h) (l.2.1) (l.2.0),
        set_next-done p (node a q) (store p h) (l.1) (l.0) (first rest null),
        set_next-done q (node b (first rest null)) t (ground arith) (l.2.0) p,
      )

  -- At the head the walk that follows the swap finds nothing, so the swap is all that happens.
  swap_at_head :
      (fuel : ℕ)
      → Linked h null ((p, a) ∷ (q, b) ∷ rest)
      → Distinct ((p, a) ∷ (q, b) ∷ rest)
      → length rest + 1 < fuel
      → ready_queue_swap_with_next fuel p (store p h) ≡ done tt (store q after_head)
  unfolding ready_queue_swap_with_next
  swap_at_head fuel l d enough =
      let (apart, p_out) = not_has-cons p q b rest d.0 in
      let same : (p == p) ≡ true = ground arith in
      let m = swapped_first-Linked l d in
      let walk : find_before fuel p p (store q after_head) ≡ done null (store q after_head) =
        find_before-null fuel (store q after_head) p p a rest (m.2) p_out (l.0) enough in
      rw (same, swap_head-done l apart, walk)

-- Behind the head: `f` are the nodes before r.
module _ (h : Cells) (f : Nodes) (r p q : Ptr) (c a b : Pcb) (rest : Nodes) where
  abbrev after_swap : Cells
  after_swap = swapped h r c p a q b (first rest null)

  abbrev before_swap : Nodes
  before_swap = f ++ (r, c) ∷ (p, a) ∷ (q, b) ∷ rest

  -- The addresses are apart, and those of `f` and `rest` are none of the three.
  record Apart : Type 0 where
    r_p : r ≢ p
    r_q : r ≢ q
    p_q : p ≢ q
    r_f : has r f ≡ false
    p_f : has p f ≡ false
    q_f : has q f ≡ false
    r_rest : has r rest ≡ false
    p_rest : has p rest ≡ false
    q_rest : has q rest ≡ false

  distinct-Apart : Distinct before_swap → Apart
  distinct-Apart d =
      let t = Distinct-right f ((r, c) ∷ (p, a) ∷ (q, b) ∷ rest) d in
      let (rp, r1) = not_has-cons r p a ((q, b) ∷ rest) t.0 in
      let (rq, r2) = not_has-cons r q b rest r1 in
      let (pq, p2) = not_has-cons p q b rest t.1.0 in
      let out = λ (x : Ptr). Distinct-apart f ((r, c) ∷ (p, a) ∷ (q, b) ∷ rest) x d in
      record {
        r_p = rp;
        r_q = rq;
        p_q = pq;
        r_f = out r (has-first r c ((p, a) ∷ (q, b) ∷ rest));
        p_f = out p (has-later p r c ((p, a) ∷ (q, b) ∷ rest) (has-first p a ((q, b) ∷ rest)));
        q_f = out q (
            has-later q r c ((p, a) ∷ (q, b) ∷ rest)
              (has-later q p a ((q, b) ∷ rest) (has-first q b rest)));
        r_rest = r2;
        p_rest = p2;
        q_rest = t.1.1.0;
      }

  module _ (l : Linked h null before_swap) (d : Distinct before_swap) where
    after_swap-Linked : Linked after_swap null (f ++ (r, c) ∷ (q, b) ∷ (p, a) ∷ rest)
    unfolding write
    after_swap-Linked =
        let t = Linked-right h null f ((r, c) ∷ (p, a) ∷ (q, b) ∷ rest) l in
        let front = Linked-left h null f ((r, c) ∷ (p, a) ∷ (q, b) ∷ rest) l in
        let o = distinct-Apart d in
        let front1 = Linked-write h r r (some (node c q)) f front o.r_f in
        let front2 = Linked-write _ r q (some (node b p)) f front1 o.q_f in
        let front3 = Linked-write _ r p (some (node a (first rest null))) f front2 o.p_f in
        let rest1 = Linked-write h null r (some (node c q)) rest (t.2.2.2) o.r_rest in
        let rest2 = Linked-write _ null q (some (node b p)) rest rest1 o.q_rest in
        let rest3 = Linked-write _ null p (some (node a (first rest null))) rest rest2 o.p_rest in
        Linked-append after_swap null f ((r, c) ∷ (q, b) ∷ (p, a) ∷ rest) front3
          (t.0, at_r o.r_p o.r_q, (t.2.2.0, at_q o.p_q, (t.2.0, at_p, rest3)))
      where
        at_r : r ≢ p → r ≢ q → after_swap r ≡ some (node c q)
        at_r x y = ground arith

        at_q : p ≢ q → after_swap q ≡ some (node b p)
        at_q x = ground arith

        at_p : after_swap p ≡ some (node a (first rest null))
        at_p = ground arith

    swap_behind :
        (fuel : ℕ)
        → length f < fuel
        → ready_queue_swap_with_next fuel p (store (first f r) h)
          ≡ done tt (store (first f r) after_swap)
    unfolding ready_queue_swap_with_next
    swap_behind fuel enough =
        let t = Linked-right h null f ((r, c) ∷ (p, a) ∷ (q, b) ∷ rest) l in
        let o = distinct-Apart d in
        let hd = first f r in
        let end = first rest null in
        let h1 : Cells = write h r (some (node c q)) in
        let h2 : Cells = write h1 q (some (node b p)) in
        let p_r : p ≢ r = λ e. o.r_p (sym e) in
        let q_r : q ≢ r = λ e. o.r_q (sym e) in
        let stop : (r == null) ≡ false = first_ne_of_not_has null r [] refl (λ e. t.0 (sym e)) in
        let at1 : h1 q ≡ some (node b end) = write_ne h r q _ q_r ∙ t.2.2.1 in
        let at2 : h2 p ≡ some (node a q) = write_ne h1 q p _ o.p_q ∙ write_ne h r p _ p_r ∙ t.2.1 in
        rw (
          first_ne_of_not_has p r f o.p_f p_r,
          find_before-done fuel (store hd h) p f r c _ l o.p_f p_r refl enough,
          stop,
          load-done r (node c p) (store hd h) (t.1) (t.0),
          load-done p (node a q) (store hd h) (t.2.1) (t.2.0),
          load-done q (node b end) (store hd h) (t.2.2.1) (t.2.2.0),
          set_next-done r (node c p) (store hd h) (t.1) (t.0) q,
          set_next-done q (node b end) (store hd h1) at1 (t.2.2.0) p,
          set_next-done p (node a q) (store hd h2) at2 (t.2.0) end,
        )

swap_behind-IsQueue :
    (fuel : ℕ) (s : Store) (f : Nodes) (r p q : Ptr) (c a b : Pcb) (rest : Nodes)
    → IsQueue s (f ++ (r, c) ∷ (p, a) ∷ (q, b) ∷ rest)
    → length (f ++ (r, c) ∷ (p, a) ∷ (q, b) ∷ rest) < fuel
    → Ends
        (λ _ t. IsQueue t (f ++ (r, c) ∷ (q, b) ∷ (p, a) ∷ rest))
        (ready_queue_swap_with_next fuel p s)
swap_behind-IsQueue fuel s f r p q c a b rest is enough =
    let (start, stop) = head_ne s f r c ((p, a) ∷ (q, b) ∷ rest) is in
    let same : s ≡ store (first f r) s.cells = ap (λ x. store x s.cells) start in
    let after = f ++ (r, c) ∷ (q, b) ∷ (p, a) ∷ rest in
    let short : length f < fuel =
      omega (arith, length-append f ((r, c) ∷ (p, a) ∷ (q, b) ∷ rest)) in
    let d : Distinct after = rw (append_assoc f ((r, c) ∷ []) ((q, b) ∷ (p, a) ∷ rest)) at (
      Distinct-swap (f ++ (r, c) ∷ []) rest (p, a) (q, b)
        (rw (append_assoc f ((r, c) ∷ []) ((p, a) ∷ (q, b) ∷ rest)) (is.distinct))) in
    subst (λ x. Ends (λ _ t. IsQueue t after) (ready_queue_swap_with_next fuel p x)) (sym same)
      (rw (swap_behind s.cells f r p q c a b rest is.linked is.distinct fuel short) (
        ends (record {
          start = sym (first-append f ((r, c) ∷ (q, b) ∷ (p, a) ∷ rest) null);
          linked = after_swap-Linked s.cells f r p q c a b rest is.linked is.distinct;
          distinct = d;
        })))

-- `ready_queue_swap_with_next` of a node that has a successor exchanges the two in the sequence.
pub ready_queue_swap_with_next-swap :
    (fuel : ℕ) (s : Store) (f : Nodes) (p q : Ptr) (a b : Pcb) (rest : Nodes)
    → IsQueue s (f ++ (p, a) ∷ (q, b) ∷ rest)
    → length (f ++ (p, a) ∷ (q, b) ∷ rest) < fuel
    → Ends (λ _ t. IsQueue t (f ++ (q, b) ∷ (p, a) ∷ rest)) (ready_queue_swap_with_next fuel p s)
ready_queue_swap_with_next-swap fuel s [] p q a b rest is enough =
    let same : s ≡ store p s.cells = ap (λ x. store x s.cells) is.start in
    let d = Distinct-swap [] rest (p, a) (q, b) is.distinct in
    subst
      (λ x. Ends (λ _ t. IsQueue t ((q, b) ∷ (p, a) ∷ rest)) (ready_queue_swap_with_next fuel p x))
      (sym same)
      (rw (swap_at_head s.cells p q a b rest fuel is.linked is.distinct (omega arith)) (
        ends (record {
          start = refl;
          linked = swapped_first-Linked s.cells p q a b rest is.linked is.distinct;
          distinct = d;
        })))
ready_queue_swap_with_next-swap fuel s (x ∷ xs) p q a b rest is enough =
    let (f, (r, c), e) = unsnoc x xs in
    let whole : (x ∷ xs) ++ (p, a) ∷ (q, b) ∷ rest ≡ f ++ (r, c) ∷ (p, a) ∷ (q, b) ∷ rest =
      ap (λ l. l ++ (p, a) ∷ (q, b) ∷ rest) e ∙ append_assoc f ((r, c) ∷ []) _ in
    let swap : (x ∷ xs) ++ (q, b) ∷ (p, a) ∷ rest ≡ f ++ (r, c) ∷ (q, b) ∷ (p, a) ∷ rest =
      ap (λ l. l ++ (q, b) ∷ (p, a) ∷ rest) e ∙ append_assoc f ((r, c) ∷ []) _ in
    subst (λ l. Ends (λ _ t. IsQueue t l) (ready_queue_swap_with_next fuel p s)) (sym swap)
      (swap_behind-IsQueue fuel s f r p q c a b rest (subst (λ l. IsQueue s l) whole is)
        (subst (λ l. length l < fuel) whole enough))
