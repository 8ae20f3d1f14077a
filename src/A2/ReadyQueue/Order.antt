-- ===== src/A2/ReadyQueue/Order.antt =====
-- What one bubble pass does to the order of the ready queue, and what that means for
-- `ready_queue_pop_shortest_job` (a2/ready_queue.c).
use mathlib.Core.List.{Perm}
use mathlib.Core.List.Perm
use mathlib.Core.Path.{subst}
use comp310_w.Prelude.{
  ℕ, ◌+◌, ◌<◌, ◌≡◌, refl, ap, ◌∙◌, true, false, some, [], ◌∷◌, ◌++◌, arith, length, Bool-cases, inl,
  inr,
}
use comp310_w.A2.Pcb.{Pcb}
use comp310_w.A2.Store.{Ptr, null, node, Store}
use comp310_w.A2.Store.Chain.{Nodes, first, IsQueue, Ends, Ends-chain, Ends-mono}
use comp310_w.A2.ReadyQueue.{before_next, sort_ready_queue, ready_queue_pop_shortest_job}
use comp310_w.A2.ReadyQueue.Ends.{ready_queue_pop_head-cons}
use comp310_w.A2.ReadyQueue.Sort.{pass, bubble, sort_ready_queue-bubble}

pass-nil : (c : Ptr × Pcb) → pass c [] ≡ c ∷ []
unfolding pass
pass-nil c = refl

module _ (p q : Ptr) (a b : Pcb) (rest : Nodes) where
  pass-later : before_next a b ≡ true → pass (p, a) ((q, b) ∷ rest) ≡ (q, b) ∷ pass (p, a) rest
  unfolding pass
  pass-later e = rw (e, pass)

  pass-here : before_next a b ≡ false → pass (p, a) ((q, b) ∷ rest) ≡ (p, a) ∷ pass (q, b) rest
  unfolding pass
  pass-here e = rw (e, pass)

pass-perm : (c : Ptr × Pcb) (xs : Nodes) → Perm (pass c xs) (c ∷ xs)
unfolding pass
pass-perm c [] = Perm.refl _
pass-perm (p, a) ((q, b) ∷ rest) = elim (Bool-cases (before_next a b)) [
  | inl e ↦ rw (e, pass) (Perm.trans (Perm.cons _ (pass-perm (p, a) rest)) (Perm.swap _ _ _))
  | inr e ↦ rw (e, pass) (Perm.cons _ (pass-perm (q, b) rest))
]

pub bubble-perm : (xs : Nodes) → Perm (bubble xs) xs
unfolding bubble
bubble-perm [] = Perm.refl _
bubble-perm (c ∷ xs) = pass-perm c xs

-- `sort_ready_queue` never loses and never duplicates a process.
pub sort_ready_queue-perm :
    (fuel : ℕ) (s : Store) (xs : Nodes)
    → IsQueue s xs
    → length xs + 1 < fuel
    → Ends (λ _ t. (ys : Nodes) × IsQueue t ys × Perm ys xs) (sort_ready_queue fuel s)
sort_ready_queue-perm fuel s xs is enough =
    Ends-mono (sort_ready_queue-bubble fuel s xs is enough)
      λ _ t it. (bubble xs, it, bubble-perm xs)

-- No node goes after the one behind it.
abbrev pub InOrder : Nodes → Type 0
InOrder [] = Unit
InOrder (c ∷ []) = Unit
InOrder ((p, a) ∷ (q, b) ∷ rest) = (before_next a b ≡ false) × InOrder ((q, b) ∷ rest)

pass-InOrder : (c : Ptr × Pcb) (xs : Nodes) → InOrder (c ∷ xs) → pass c xs ≡ c ∷ xs
unfolding pass
pass-InOrder c [] h = refl
pass-InOrder (p, a) ((q, b) ∷ rest) h =
    rw (h.0, pass) (ap (λ l. (p, a) ∷ l) (pass-InOrder (q, b) rest h.1))

-- The node that a pass carries to the end goes after every other node.
abbrev pub AfterAll : Pcb → Nodes → Type 0
AfterAll m [] = Unit
AfterAll m ((q, b) ∷ rest) = (before_next b m ≡ false) × AfterAll m rest

-- `sort_ready_queue` leaves a queue as it is that is in order already.
pub sort_ready_queue-InOrder :
    (fuel : ℕ) (s : Store) (xs : Nodes)
    → IsQueue s xs
    → InOrder xs
    → length xs + 1 < fuel
    → Ends (λ _ t. IsQueue t xs) (sort_ready_queue fuel s)
unfolding bubble
sort_ready_queue-InOrder fuel s [] is ordered enough = sort_ready_queue-bubble fuel s [] is enough
sort_ready_queue-InOrder fuel s (c ∷ xs) is ordered enough =
    rw (← pass-InOrder c xs ordered) (sort_ready_queue-bubble fuel s (c ∷ xs) is enough)

longer_later :
    (a b : Pcb)
    → a.priority ≡ false
    → b.priority ≡ false
    → b.job_length_score < a.job_length_score
    → before_next a b ≡ true
unfolding before_next
longer_later a b pa pb h = ground arith

-- The order of `swap_needed` is a strict weak order.
before_next_cotrans :
    (a b m : Pcb) → before_next a b ≡ false → before_next b m ≡ false → before_next a m ≡ false
unfolding before_next
before_next_cotrans a b m h k = ground arith

before_next_irrefl : (a : Pcb) → before_next a a ≡ false
unfolding before_next
before_next_irrefl a = ground arith

before_next_asym : (a b : Pcb) → before_next a b ≡ true → before_next b a ≡ false
unfolding before_next
before_next_asym a b h = ground arith

pass-last :
    (c : Ptr × Pcb) (xs : Nodes)
    → (f : Nodes) × (m : Ptr × Pcb) × (pass c xs ≡ f ++ m ∷ [])
      × AfterAll (m.1) f
      × (before_next (c.1) (m.1) ≡ false)
unfolding pass
pass-last c [] = ([], c, refl, tt, before_next_irrefl (c.1))
pass-last (p, a) ((q, b) ∷ rest) = elim (Bool-cases (before_next a b)) [
  | inl h ↦
      let (f, m, e, all, le) = pass-last (p, a) rest in
      let eq : pass (p, a) ((q, b) ∷ rest) ≡ (q, b) ∷ f ++ m ∷ [] =
        pass-later p q a b rest h ∙ ap (λ l. (q, b) ∷ l) e in
      ((q, b) ∷ f, m, eq, (before_next_cotrans b a (m.1) (before_next_asym a b h) le, all), le)
  | inr h ↦
      let (f, m, e, all, le) = pass-last (q, b) rest in
      let first_le = before_next_cotrans a b (m.1) h le in
      let eq : pass (p, a) ((q, b) ∷ rest) ≡ (p, a) ∷ f ++ m ∷ [] =
        pass-here p q a b rest h ∙ ap (λ l. (p, a) ∷ l) e in
      ((p, a) ∷ f, m, eq, (first_le, all), first_le)
]

-- On a queue that is not empty, what `sort_ready_queue` leaves at the tail goes after every other
-- node: no job before it has lower priority, or equal priority and a higher score.
pub sort_ready_queue-last :
    (fuel : ℕ) (s : Store) (c : Ptr × Pcb) (xs : Nodes)
    → IsQueue s (c ∷ xs)
    → length (c ∷ xs) + 1 < fuel
    → Ends
        (λ _ t. (f : Nodes) × (m : Ptr × Pcb) × IsQueue t (f ++ m ∷ []) × AfterAll (m.1) f)
        (sort_ready_queue fuel s)
unfolding bubble
sort_ready_queue-last fuel s c xs is enough =
    let (f, m, e, all, le) = pass-last c xs in
    Ends-mono (sort_ready_queue-bubble fuel s (c ∷ xs) is enough)
      λ _ t it. (f, m, subst (λ l. IsQueue t l) e it, all)

-- On three jobs in falling order of their scores, none of them with priority, the pass is not
-- enough: `ready_queue_pop_shortest_job` returns the second, though the third is shorter.
pub pop_shortest_job-falling :
    (fuel : ℕ) (s : Store) (p q r : Ptr) (a b c : Pcb)
    → IsQueue s ((p, a) ∷ (q, b) ∷ (r, c) ∷ [])
    → 4 < fuel
    → a.priority ≡ false
    → b.priority ≡ false
    → c.priority ≡ false
    → b.job_length_score < a.job_length_score
    → c.job_length_score < b.job_length_score
    → Ends (λ x t. (x ≡ q) × IsQueue t ((r, c) ∷ (p, a) ∷ [])) (ready_queue_pop_shortest_job fuel s)
unfolding ready_queue_pop_shortest_job bubble
pop_shortest_job-falling fuel s p q r a b c is enough pa pb pc ba cb =
    let ab : before_next a b ≡ true = longer_later a b pa pb ba in
    let ac : before_next a c ≡ true = longer_later a c pa pc (omega arith) in
    let order : pass (p, a) ((q, b) ∷ (r, c) ∷ []) ≡ (q, b) ∷ (r, c) ∷ (p, a) ∷ [] =
      pass-later p q a b ((r, c) ∷ []) ab
      ∙ ap (λ l. (q, b) ∷ l) (pass-later p r a c [] ac ∙ ap (λ l. (r, c) ∷ l) (pass-nil (p, a))) in
    Ends-chain
      (subst (λ l. Ends (λ _ t. IsQueue t l) (sort_ready_queue fuel s)) order
        (sort_ready_queue-bubble fuel s _ is (omega arith)))
      λ _ t it.
        Ends-mono (ready_queue_pop_head-cons t q b ((r, c) ∷ (p, a) ∷ []) it) λ x u h. (h.0, h.1)

-- On a queue in order, the first node comes out, still in place in the cells.
pub pop_shortest_job-InOrder :
    (fuel : ℕ) (s : Store) (p : Ptr) (b : Pcb) (xs : Nodes)
    → IsQueue s ((p, b) ∷ xs)
    → InOrder ((p, b) ∷ xs)
    → length xs + 2 < fuel
    → Ends
        (λ q t. (q ≡ p) × IsQueue t xs × (t.cells p ≡ some (node b (first xs null))))
        (ready_queue_pop_shortest_job fuel s)
unfolding ready_queue_pop_shortest_job
pop_shortest_job-InOrder fuel s p b xs is ordered enough =
    Ends-chain (sort_ready_queue-InOrder fuel s ((p, b) ∷ xs) is ordered (omega arith)) (λ _ t it.
      Ends-mono (ready_queue_pop_head-cons t p b xs it)
        (λ q u (same, iu, cells). (same, iu, rw cells (it.linked.1))))
