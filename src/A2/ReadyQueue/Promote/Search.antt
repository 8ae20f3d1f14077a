-- ===== src/A2/ReadyQueue/Promote/Search.antt =====
-- The search of `ready_queue_promote` for the node with the score (a2/ready_queue.c).
use comp310_w.Prelude.{
  ℕ, zero, suc, ◌+◌, ◌≡◌, refl, sym, ap, ◌≢◌, ◌==◌, true, false, some, [], ◌∷◌, ◌++◌, arith, length,
}
use comp310_w.A2.Pcb.{Pcb}
use comp310_w.A2.Store.{Ptr, null, node, Cells, Store, done}
use comp310_w.A2.Store.Chain.{
  Nodes, first, Distinct, Linked, load-done, first-append, has-append, first_ne_of_not_has,
  not_has-cons, not_has-append,
}
use comp310_w.A2.ReadyQueue.{find_score}

-- No node has the score.
abbrev pub NotScored : ℕ → Nodes → Type 0
NotScored m [] = Unit
NotScored m ((p, b) ∷ xs) = (b.job_length_score ≢ m) × NotScored m xs

pub Distinct-without :
    (xs : Nodes) (c : Ptr × Pcb) (ys : Nodes) → Distinct (xs ++ c ∷ ys) → Distinct (xs ++ ys)
Distinct-without [] c ys d = d.1
Distinct-without ((p, b) ∷ xs) (q, c) ys d =
    let (left, right) = not_has-append p xs ((q, c) ∷ ys) d.0 in
    (
      rw (has-append p xs ys, left) ((not_has-cons p q c ys right).1),
      Distinct-without xs (q, c) ys d.1,
    )

-- The node at which a chain through r begins.
pub record FirstNode (score : ℕ) (h : Cells) (p : Ptr) : Type 0 where
  pub pcb : Pcb
  pub next : Ptr
  pub there : h p ≡ some (node pcb next)
  pub nonnull : p ≢ null
  pub other : (pcb.job_length_score == score) ≡ false

pub first_node :
    (score : ℕ) (h : Cells) (xs : Nodes) (r : Ptr) (c : Pcb) (ys : Nodes)
    → Linked h null (xs ++ (r, c) ∷ ys)
    → NotScored score (xs ++ (r, c) ∷ [])
    → FirstNode score h (first xs r)
first_node score h [] r c ys l miss = record {
  pcb = c;
  next = first ys null;
  there = l.1;
  nonnull = l.0;
  other = differ (miss.0);
}
  where
    differ : c.job_length_score ≢ score → (c.job_length_score == score) ≡ false
    differ ne = ground arith
first_node score h ((p, a) ∷ xs) r c ys l miss = record {
  pcb = a;
  next = _;
  there = l.1;
  nonnull = l.0;
  other = differ (miss.0);
}
  where
    differ : a.job_length_score ≢ score → (a.job_length_score == score) ≡ false
    differ ne = ground arith

-- The walk goes on to r, whatever is behind r, if no node up to r has the score.
pub find_score-on :
    (j k score : ℕ) (s : Store) (xs : Nodes) (r : Ptr) (c : Pcb) (ys : Nodes)
    → Linked s.cells null (xs ++ (r, c) ∷ ys)
    → NotScored score (xs ++ (r, c) ∷ [])
    → k ≡ length xs + j
    → find_score k score (first xs r) s ≡ find_score j score r s
unfolding find_score
find_score-on j k score s [] r c ys l miss e = ap (λ n. find_score n score r s) (omega arith)
find_score-on j zero score s ((p, a) ∷ xs) r c ys l miss e = absurd (omega arith)
find_score-on j (suc k) score s ((p, a) ∷ xs) r c ys l miss e =
    let n = first_node score s.cells xs r c ys l.2 miss.1 in
    let more : (first xs r == null) ≡ false =
      first_ne_of_not_has null (first xs r) [] refl (λ z. n.nonnull (sym z)) in
    rw
      (
        load-done p _ s (l.1) (l.0),
        first-append xs ((r, c) ∷ ys) null,
        more,
        load-done (first xs r) (node (n.pcb) (n.next)) s n.there n.nonnull,
        n.other,
      )
      (find_score-on j k score s xs r c ys l.2 miss.1 (omega arith))

pub find_score-last :
    (k score : ℕ) (s : Store) (r : Ptr) (c : Pcb)
    → s.cells r ≡ some (node c null)
    → r ≢ null
    → find_score (suc k) score r s ≡ done r s
unfolding find_score
find_score-last k score s r c there ne = rw (load-done r _ s there ne)

pub score_test :
    {score : ℕ} (b : Pcb) → b.job_length_score ≡ score → (b.job_length_score == score) ≡ true
score_test b e = ground arith

pub find_score-hit :
    (k score : ℕ) (s : Store) (r q : Ptr) (c b : Pcb) (ys : Nodes)
    → Linked s.cells null ((r, c) ∷ (q, b) ∷ ys)
    → b.job_length_score ≡ score
    → find_score (suc k) score r s ≡ done r s
unfolding find_score
find_score-hit k score s r q c b ys l hit =
    let more : (q == null) ≡ false = first_ne_of_not_has null q [] refl (λ e. l.2.0 (sym e)) in
    let found : (b.job_length_score == score) ≡ true = score_test b hit in
    rw (load-done r _ s (l.1) (l.0), more, load-done q _ s (l.2.1) (l.2.0), found)
