-- ===== src/A2/ReadyQueue/Sort.antt =====
-- `sort_ready_queue` of a2/ready_queue.c is one bubble pass over the queue.
use mathlib.Core.List.{append_assoc}
use mathlib.Core.Path.{subst}
use comp310_w.Prelude.{
  ℕ, zero, suc, ◌+◌, ◌<◌, ◌≡◌, refl, sym, ◌≢◌, ◌==◌, Bool, true, false, some, [], ◌∷◌, ◌++◌, arith,
  length, length-append, if◌then◌else◌, Bool-cases, inl, inr,
}
use comp310_w.A2.Pcb.{Pcb}
use comp310_w.A2.Store.{Ptr, null, node, Store, done, return}
use comp310_w.A2.Store.Chain.{
  Nodes, IsQueue, Ends, ends, Ends-chain, load-done, Linked-right, first_ne_of_not_has,
}
use comp310_w.A2.ReadyQueue.{before_next, swap_needed, sort_pass, sort_rounds, sort_ready_queue}
use comp310_w.A2.ReadyQueue.Ends.{head_ne}
use comp310_w.A2.ReadyQueue.Swap.{ready_queue_swap_with_next-swap}

-- One pass: `c` is the node that is carried towards the end.
unfoldable pub pass : Ptr × Pcb → Nodes → Nodes
pass c [] = c ∷ []
pass (p, a) ((q, b) ∷ rest) = elim (before_next a b) [
  | true ↦ (q, b) ∷ pass (p, a) rest
  | false ↦ (p, a) ∷ pass (q, b) rest
]

unfoldable pub bubble : Nodes → Nodes
unfolding pass
bubble [] = []
bubble (c ∷ xs) = pass c xs

-- At the end of a pass `cur` is a node without successor.
abbrev AtLast : Ptr → Store → Type 0
AtLast cur t = (cur ≢ null) × ((b : Pcb) × (t.cells cur ≡ some (node b null)))

swap_needed-done :
    (s : Store) (p q : Ptr) (a b : Pcb)
    → p ≢ null
    → q ≢ null
    → s.cells p ≡ some (node a q)
    → (r : Ptr) → s.cells q ≡ some (node b r)
    → swap_needed p s ≡ done (before_next a b) s
unfolding swap_needed
swap_needed-done s p q a b p_ne q_ne at_p r at_q =
    let more : (q == null) ≡ false = ground arith in
    rw (load-done p _ s at_p p_ne, more, load-done q _ s at_q q_ne)

-- A node moves from the part that is left to the part that is done.
regroup : (f : Nodes) (c : Ptr × Pcb) (xs : Nodes) → f ++ c ∷ xs ≡ (f ++ c ∷ []) ++ xs
regroup f c xs = sym (append_assoc f (c ∷ []) xs)

as_long :
    (f : Nodes) (c d : Ptr × Pcb) (rest : Nodes) (fuel : ℕ)
    → length (f ++ c ∷ d ∷ rest) < fuel
    → length ((f ++ c ∷ []) ++ d ∷ rest) < fuel
as_long f c d rest fuel h = subst (λ l. length l < fuel) (regroup f c (d ∷ rest)) h

onwards :
    (f : Nodes) (c : Ptr × Pcb) (xs : Nodes) (fuel k : ℕ) (p : Ptr) (sorted : Bool) (t : Store)
    → Ends (λ r u. IsQueue u ((f ++ c ∷ []) ++ xs) × AtLast (r.0) u) (sort_pass fuel k p sorted t)
    → Ends (λ r u. IsQueue u (f ++ c ∷ xs) × AtLast (r.0) u) (sort_pass fuel k p sorted t)
onwards f c xs fuel k p sorted t h =
    subst (λ l. Ends (λ r u. IsQueue u l × AtLast (r.0) u) (sort_pass fuel k p sorted t))
      (sym (regroup f c xs)) h

sort_pass-pass :
    (fuel k : ℕ) (s : Store) (f : Nodes) (p : Ptr) (a : Pcb) (rest : Nodes) (sorted : Bool)
    → IsQueue s (f ++ (p, a) ∷ rest)
    → length (f ++ (p, a) ∷ rest) < fuel
    → length rest < k
    → Ends (λ r t. IsQueue t (f ++ pass (p, a) rest) × AtLast (r.0) t) (sort_pass fuel k p sorted s)
unfolding sort_pass pass
sort_pass-pass fuel zero s f p a rest sorted is enough rounds = absurd (omega arith)
sort_pass-pass fuel (suc k) s f p a [] sorted is enough rounds =
    let l = Linked-right s.cells null f ((p, a) ∷ []) is.linked in
    rw (load-done p _ s (l.1) (l.0)) (ends (is, (l.0, (a, l.1))))
sort_pass-pass fuel (suc k) s f p a ((q, b) ∷ rest) sorted is enough rounds =
    let l = Linked-right s.cells null f ((p, a) ∷ (q, b) ∷ rest) is.linked in
    let more : (q == null) ≡ false = first_ne_of_not_has null q [] refl (λ e. l.2.0 (sym e)) in
    rw (load-done p _ s (l.1) (l.0), more, swap_needed-done s p q a b (l.0) (l.2.0) (l.1) _ (l.2.1))
      (elim (Bool-cases (before_next a b)) [
        | inl e ↦
            rw (e, pass)
              (Ends-chain (ready_queue_swap_with_next-swap fuel s f p q a b rest is enough)
                λ _ t it.
                  onwards f (q, b) (pass (p, a) rest) fuel k p false t
                    (sort_pass-pass fuel k t (f ++ (q, b) ∷ []) p a rest false
                      (subst (λ l. IsQueue t l) (regroup f (q, b) ((p, a) ∷ rest)) it)
                      (as_long f (q, b) (p, a) rest fuel
                        (omega (
                          arith,
                          length-append f ((p, a) ∷ (q, b) ∷ rest),
                          length-append f ((q, b) ∷ (p, a) ∷ rest),
                          enough,
                        )))
                      (omega arith)))
        | inr e ↦
            rw (e, pass)
              (onwards f (p, a) (pass (q, b) rest) fuel k q sorted s
                (sort_pass-pass fuel k s (f ++ (p, a) ∷ []) q b rest sorted
                  (subst (λ l. IsQueue s l) (regroup f (p, a) ((q, b) ∷ rest)) is)
                  (as_long f (p, a) (q, b) rest fuel enough) (omega arith)))
      ])

-- Where the first round stops, the next one finds no successor and ends with `sorted` true.
sort_rounds-last :
    (fuel k : ℕ) (t : Store) (cur : Ptr)
    → AtLast cur t
    → 0 < fuel
    → sort_rounds fuel (suc k) cur t ≡ done tt t
unfolding sort_rounds sort_pass
sort_rounds-last zero k t cur last enough = absurd (omega arith)
sort_rounds-last (suc fuel) k t cur last enough = rw (load-done cur _ t (last.1.1) (last.0))

-- The second round changes nothing.
finish :
    (fuel k : ℕ) (cur : Ptr) (sorted : Bool) (t : Store) (xs : Nodes)
    → IsQueue t xs
    → AtLast cur t
    → 0 < fuel
    → Ends (λ _ u. IsQueue u xs) ((if sorted then return tt else sort_rounds fuel (suc k) cur) t)
finish fuel k cur true t xs is last enough = ends is
finish fuel k cur false t xs is last enough =
    rw (sort_rounds-last fuel k t cur last enough) (ends is)

sort_rounds-pass :
    (fuel k : ℕ) (s : Store) (p : Ptr) (a : Pcb) (rest : Nodes)
    → IsQueue s ((p, a) ∷ rest)
    → length rest + 1 < fuel
    → Ends (λ _ t. IsQueue t (pass (p, a) rest)) (sort_rounds fuel (suc (suc k)) p s)
unfolding sort_rounds
sort_rounds-pass fuel k s p a rest is enough =
    Ends-chain (sort_pass-pass fuel fuel s [] p a rest true is (omega arith) (omega arith))
      λ r t it. finish fuel k r.0 r.1 t (pass (p, a) rest) it.0 it.1 (omega arith)

-- `sort_ready_queue` makes one bubble pass over the queue and ends, whatever is in it.
pub sort_ready_queue-bubble :
    (fuel : ℕ) (s : Store) (xs : Nodes)
    → IsQueue s xs
    → length xs + 1 < fuel
    → Ends (λ _ t. IsQueue t (bubble xs)) (sort_ready_queue fuel s)
unfolding sort_ready_queue bubble
sort_ready_queue-bubble zero s xs is enough = absurd (omega arith)
sort_ready_queue-bubble (suc zero) s xs is enough = absurd (omega arith)
sort_ready_queue-bubble (suc (suc k)) s [] is enough =
    let empty : (s.head == null) ≡ true = ground (arith, is.start) in rw empty (ends is)
sort_ready_queue-bubble (suc (suc k)) s ((p, a) ∷ rest) is enough =
    let (start, stop) = head_ne s [] p a rest is in
    rw stop (
      subst
        (λ q.
          Ends (λ _ t. IsQueue t (pass (p, a) rest)) (sort_rounds (suc (suc k)) (suc (suc k)) q s))
        (sym start) (sort_rounds-pass (suc (suc k)) k s p a rest is (omega arith)))
