-- ===== src/A2/ReadyQueue/Promote.antt =====
-- `ready_queue_promote` of a2/ready_queue.c: the first node with the score goes to the head.
pub mod Search
use mathlib.Core.List.{append_assoc}
use mathlib.Core.Path.{subst}
use comp310_w.Prelude.{
  ℕ, zero, suc, ◌+◌, ◌-◌, ◌<◌, ◌≡◌, refl, sym, ap, ◌∙◌, ◌≢◌, ◌==◌, true, false, some, [], ◌∷◌, ◌++◌,
  arith, length, length-append,
}
use comp310_w.A2.Pcb.{Pcb}
use comp310_w.A2.Store.{Ptr, null, node, Cells, Store, done, write}
use comp310_w.A2.Store.Chain.{
  Nodes, first, has, Distinct, Linked, IsQueue, Ends, ends, load-done, set_next-done, first-append,
  has-append, has-first, has-later, Linked-write, Linked-append, Linked-left, Linked-right,
  Distinct-apart, Distinct-right, first_ne_of_not_has, write_self, write_ne, not_has-cons,
  not_has-append, not_has_of,
}
use comp310_w.A2.ReadyQueue.{find_score, ready_queue_promote}
use comp310_w.A2.ReadyQueue.Ends.{head_ne, unsnoc}
use comp310_w.A2.ReadyQueue.Promote.Search.{
  Distinct-without, NotScored, FirstNode, first_node, find_score-on, find_score-last, score_test,
  find_score-hit,
}

abbrev store : Ptr → Cells → Store
store p h = record { head = p; cells = h }

module _ (score : ℕ) (h : Cells) (f : Nodes) (r : Ptr) (c : Pcb) where
  -- The walk reaches r with fuel left.
  reach :
      (fuel : ℕ) (ys : Nodes)
      → Linked h null (f ++ (r, c) ∷ ys)
      → NotScored score (f ++ (r, c) ∷ [])
      → length f < fuel
      → (j : ℕ) × (find_score fuel score (first f r) (store (first f r) h)
          ≡ find_score (suc j) score r (store (first f r) h))
  reach fuel ys l miss enough = (
    fuel - length f - 1,
    find_score-on (suc (fuel - length f - 1)) fuel score (store (first f r) h) f r c ys l miss
        (omega arith),
  )

  -- No node has the score: nothing is changed.
  promote_none :
      (fuel : ℕ)
      → Linked h null (f ++ (r, c) ∷ [])
      → NotScored score (f ++ (r, c) ∷ [])
      → length f < fuel
      → ready_queue_promote fuel score (store (first f r) h) ≡ done tt (store (first f r) h)
  unfolding ready_queue_promote
  promote_none fuel l miss enough =
      let n = first_node score h f r c [] l miss in
      let (j, walk) = reach fuel [] l miss enough in
      let t = Linked-right h null f ((r, c) ∷ []) l in
      rw (
        load-done (first f r) (node (n.pcb) (n.next)) (store (first f r) h) n.there n.nonnull,
        n.other,
        walk,
        find_score-last j score (store (first f r) h) r c (t.1) (t.0),
        load-done r (node c null) (store (first f r) h) (t.1) (t.0),
      )

  module _ (q : Ptr) (b : Pcb) (ys : Nodes) (hit : b.job_length_score ≡ score) where
    abbrev promoted : Cells
    promoted = write (write h r (some (node c (first ys null)))) q (some (node b (first f r)))

    promote_hit :
        (fuel : ℕ)
        → Linked h null (f ++ (r, c) ∷ (q, b) ∷ ys)
        → NotScored score (f ++ (r, c) ∷ [])
        → q ≢ r
        → length f < fuel
        → ready_queue_promote fuel score (store (first f r) h) ≡ done tt (store q promoted)
    unfolding ready_queue_promote
    promote_hit fuel l miss apart enough =
        let n = first_node score h f r c ((q, b) ∷ ys) l miss in
        let (j, walk) = reach fuel ((q, b) ∷ ys) l miss enough in
        let t = Linked-right h null f ((r, c) ∷ (q, b) ∷ ys) l in
        let s0 : Store = store (first f r) h in
        let h1 : Cells = write h r (some (node c (first ys null))) in
        let more : (q == null) ≡ false = first_ne_of_not_has null q [] refl (λ e. t.2.0 (sym e)) in
        rw (
          load-done (first f r) (node (n.pcb) (n.next)) s0 n.there n.nonnull,
          n.other,
          walk,
          find_score-hit j score s0 r q c b ys t hit,
          load-done r (node c q) s0 (t.1) (t.0),
          more,
          load-done q (node b (first ys null)) s0 (t.2.1) (t.2.0),
          score_test b hit,
          set_next-done r (node c q) s0 (t.1) (t.0) (first ys null),
          set_next-done q (node b (first ys null)) (store (first f r) h1)
              (write_ne h r q _ apart ∙ t.2.1) (t.2.0) (first f r),
        )

-- Without a node of the score in it, `ready_queue_promote` leaves a queue as it is.
pub ready_queue_promote-none :
    (fuel score : ℕ) (s : Store) (x : Ptr × Pcb) (xs : Nodes)
    → IsQueue s (x ∷ xs)
    → NotScored score (x ∷ xs)
    → length xs < fuel
    → ready_queue_promote fuel score s ≡ done tt s
ready_queue_promote-none fuel score s x xs is miss enough =
    let (f, (r, c), e) = unsnoc x xs in
    let it : IsQueue s (f ++ (r, c) ∷ []) = subst (λ l. IsQueue s l) e is in
    let same : s ≡ store (first f r) s.cells =
      ap (λ p. store p s.cells) ((head_ne s f r c [] it).0) in
    let short : length f < fuel = omega (arith, ap length e, length-append f ((r, c) ∷ [])) in
    subst (λ u. ready_queue_promote fuel score u ≡ done tt u) (sym same)
      (promote_none score s.cells f r c fuel it.linked (subst (λ l. NotScored score l) e miss)
        short)

-- The first node behind the head that has the score goes to the head, and the order of the others
-- stays; `f` and r are the nodes before it, none of which has the score.
pub ready_queue_promote-first :
    (fuel score : ℕ) (s : Store) (f : Nodes) (r q : Ptr) (c b : Pcb) (ys : Nodes)
    → IsQueue s (f ++ (r, c) ∷ (q, b) ∷ ys)
    → NotScored score (f ++ (r, c) ∷ [])
    → b.job_length_score ≡ score
    → length f < fuel
    → Ends (λ _ t. IsQueue t ((q, b) ∷ f ++ (r, c) ∷ ys)) (ready_queue_promote fuel score s)
ready_queue_promote-first fuel score s f r q c b ys is miss hit enough =
    let start = (head_ne s f r c ((q, b) ∷ ys) is).0 in
    let same : s ≡ store (first f r) s.cells = ap (λ p. store p s.cells) start in
    let h = s.cells in
    let t = Linked-right h null f ((r, c) ∷ (q, b) ∷ ys) is.linked in
    let front = Linked-left h null f ((r, c) ∷ (q, b) ∷ ys) is.linked in
    let d = Distinct-right f ((r, c) ∷ (q, b) ∷ ys) is.distinct in
    let (r_q, r_ys) = not_has-cons r q b ys d.0 in
    let out = λ (x : Ptr). Distinct-apart f ((r, c) ∷ (q, b) ∷ ys) x is.distinct in
    let r_f : has r f ≡ false = out r (has-first r c ((q, b) ∷ ys)) in
    let q_f : has q f ≡ false = out q (has-later q r c ((q, b) ∷ ys) (has-first q b ys)) in
    let g : Cells = promoted score h f r c q b ys hit in
    let g_front =
      Linked-write _ r q (some (node b (first f r))) f
        (Linked-write h r r (some (node c (first ys null))) f front r_f) q_f in
    let g_back =
      Linked-write _ null q (some (node b (first f r))) ys
        (Linked-write h null r (some (node c (first ys null))) ys (t.2.2) r_ys) (d.1.0) in
    let whole : Linked g null (f ++ (r, c) ∷ ys) =
      Linked-append g null f ((r, c) ∷ ys) g_front
        (t.0, write_ne _ q r _ r_q ∙ write_self h r _, g_back) in
    let q_out : has q (f ++ (r, c) ∷ ys) ≡ false =
      rw (has-append q f ((r, c) ∷ ys), q_f) (not_has_of q r c ys (λ e. r_q (sym e)) (d.1.0)) in
    let others : Distinct (f ++ (r, c) ∷ ys) = rw (append_assoc f ((r, c) ∷ []) ys) at (
      Distinct-without (f ++ (r, c) ∷ []) (q, b) ys
        (rw (append_assoc f ((r, c) ∷ []) ((q, b) ∷ ys)) (is.distinct))) in
    subst
      (λ u. Ends (λ _ t. IsQueue t ((q, b) ∷ f ++ (r, c) ∷ ys)) (ready_queue_promote fuel score u))
      (sym same)
      (rw (promote_hit score h f r c q b ys hit fuel is.linked miss (λ e. r_q (sym e)) enough) (
        ends (record {
          start = refl;
          linked = (
            t.2.0,
            write_self _ q _ ∙ ap (λ p. some (node b p)) (sym (first-append f ((r, c) ∷ ys) null)),
            whole,
          );
          distinct = (q_out, others);
        })))
