-- ===== src/A2/ReadyQueue/Scores.antt =====
-- The loops of a2/ready_queue.c that read or lower the scores of the whole queue.
use mathlib.Core.Path.{subst}
use comp310_w.Prelude.{
  ℕ, zero, suc, ◌-◌, ◌≤◌, ◌<◌, ◌≡◌, refl, sym, ◌∙◌, ◌==◌, ltb, if◌then◌else◌, false, some, [], ◌∷◌,
  arith, length, Bool-cases, inl, inr, ◌⊎◌,
}
use comp310_w.A2.Pcb.{Pcb}
use comp310_w.A2.Store.{Ptr, null, node, Cells, Store, done, write}
use comp310_w.A2.Store.Chain.{
  Nodes, first, has, Distinct, Linked, IsQueue, Ends, ends, Ends-mono, load-done, set_pcb-done,
  Linked-write, first_ne_of_not_has, write_self, write_ne, not_has-cons,
}
use comp310_w.A2.ReadyQueue.{
  max_int, decrement_loop, ready_queue_decrement_job_length_score, shortest_loop,
  ready_queue_get_shortest_job_score,
}

-- The block behind one turn of the loop.
abbrev pub decremented : Pcb → Pcb
decremented b =
    if ltb 0 (b.job_length_score) then record b { job_length_score = b.job_length_score - 1 } else b

abbrev pub decrement_all : Nodes → Nodes
decrement_all [] = []
decrement_all ((p, b) ∷ xs) = (p, decremented b) ∷ decrement_all xs

first-decrement_all : (xs : Nodes) (stop : Ptr) → first (decrement_all xs) stop ≡ first xs stop
first-decrement_all [] stop = refl
first-decrement_all (x ∷ xs) stop = refl

has-decrement_all : (a : Ptr) (xs : Nodes) → has a (decrement_all xs) ≡ has a xs
has-decrement_all a [] = refl
has-decrement_all a ((p, b) ∷ xs) = rw (has-decrement_all a xs)

Distinct-decrement_all : (xs : Nodes) → Distinct xs → Distinct (decrement_all xs)
Distinct-decrement_all [] d = tt
Distinct-decrement_all ((p, b) ∷ xs) d =
    (has-decrement_all p xs ∙ d.0, Distinct-decrement_all xs d.1)

-- What the loop has done to a chain: the scores in it, and nothing outside.
abbrev Lowered : Ptr → Cells → Nodes → Store → Type 0
Lowered hd h xs t =
    (t.head ≡ hd)
    × Linked t.cells null (decrement_all xs)
    × ((x : Ptr) → has x xs ≡ false → t.cells x ≡ h x)

abbrev store : Ptr → Cells → Store
store p h = record { head = p; cells = h }

decrement_loop-Lowered :
    (k : ℕ) (hd : Ptr) (h : Cells) (xs : Nodes)
    → Linked h null xs
    → Distinct xs
    → length xs < k
    → Ends (λ _ t. Lowered hd h xs t) (decrement_loop k (first xs null) (store hd h))
unfolding decrement_loop
decrement_loop-Lowered zero hd h xs l d enough = absurd (omega arith)
decrement_loop-Lowered (suc k) hd h [] l d enough = ends (refl, tt, λ x out. refl)
decrement_loop-Lowered (suc k) hd h ((p, b) ∷ xs) l d enough =
    let stop : (p == null) ≡ false = first_ne_of_not_has null p [] refl (λ e. l.0 (sym e)) in
    rw (stop, load-done p _ (store hd h) (l.1) (l.0))
      (elim (Bool-cases (ltb 0 (b.job_length_score))) [
        | inl e ↦
            let b' : Pcb = record b { job_length_score = b.job_length_score - 1 } in
            let g : Cells = write h p (some (node b' (first xs null))) in
            rw (e, set_pcb-done p (node b (first xs null)) (store hd h) (l.1) (l.0) b')
              (Ends-mono
                (decrement_loop-Lowered k hd g xs (Linked-write h null p _ xs l.2 d.0) d.1
                  (omega arith))
                λ _ t low. (
                  low.0,
                  (l.0, rw (first-decrement_all xs null) (low.2 p d.0 ∙ write_self h p _), low.1),
                  λ x out.
                      low.2 x ((not_has-cons x p b xs out).1)
                      ∙ write_ne h p x _ ((not_has-cons x p b xs out).0),
                ))
        | inr e ↦ rw e (
            Ends-mono (decrement_loop-Lowered k hd h xs l.2 d.1 (omega arith)) λ _ t low. (
              low.0,
              (l.0, rw (first-decrement_all xs null) (low.2 p d.0 ∙ l.1), low.1),
              λ x out. low.2 x ((not_has-cons x p b xs out).1),
            ))
      ])

abbrev pub shorter : ℕ → ℕ → ℕ
shorter score shortest = if ltb score shortest then score else shortest

shorter_cases : (x m : ℕ) → (shorter x m ≡ x) ⊎ (shorter x m ≡ m)
shorter_cases x m = elim (Bool-cases (ltb x m)) [ inl e ↦ inl (rw e) | inr e ↦ inr (rw e) ]

-- The least of the scores and of `shortest`.
abbrev pub least : ℕ → Nodes → ℕ
least shortest [] = shortest
least shortest ((p, b) ∷ xs) = least (shorter (b.job_length_score) shortest) xs

shortest_loop-least :
    (k : ℕ) (s : Store) (xs : Nodes) (shortest : ℕ)
    → Linked s.cells null xs
    → length xs < k
    → shortest_loop k (first xs null) shortest s ≡ done (least shortest xs) s
unfolding shortest_loop
shortest_loop-least zero s xs shortest l enough = absurd (omega arith)
shortest_loop-least (suc k) s [] shortest l enough = refl
shortest_loop-least (suc k) s ((p, b) ∷ xs) shortest l enough =
    let stop : (p == null) ≡ false = first_ne_of_not_has null p [] refl (λ e. l.0 (sym e)) in
    rw (stop, load-done p _ s (l.1) (l.0)) (shortest_loop-least k s xs _ l.2 (omega arith))

-- No node has a score below `m`.
abbrev pub NoneBelow : ℕ → Nodes → Type 0
NoneBelow m [] = Unit
NoneBelow m ((p, b) ∷ xs) = (m ≤ b.job_length_score) × NoneBelow m xs

-- A node has the score `m`.
abbrev pub Scored : ℕ → Nodes → Type 0
Scored m [] = ⊥
Scored m ((p, b) ∷ xs) = (b.job_length_score ≡ m) ⊎ Scored m xs

least-le :
    (shortest : ℕ) (xs : Nodes) → (least shortest xs ≤ shortest) × NoneBelow (least shortest xs) xs
least-le shortest [] = (omega arith, tt)
least-le shortest ((p, b) ∷ xs) =
    let (le, above) = least-le (shorter (b.job_length_score) shortest) xs in
    (ground arith, (ground arith, above))

least_reached :
    (shortest : ℕ) (xs : Nodes) → (least shortest xs ≡ shortest) ⊎ Scored (least shortest xs) xs
least_reached shortest [] = inl refl
least_reached shortest ((p, b) ∷ xs) =
    let m = shorter (b.job_length_score) shortest in
    elim (least_reached m xs) [
      | inr h ↦ inr (inr h)
      | inl h ↦ elim (shorter_cases (b.job_length_score) shortest) [
        | inl e ↦ inr (inl (sym (h ∙ e)))
        | inr e ↦ inl (h ∙ e)
      ]
    ]

module _ (fuel : ℕ) (s : Store) (xs : Nodes) (is : IsQueue s xs) (enough : length xs < fuel) where
  -- Every score above 0 is lowered by one by `ready_queue_decrement_job_length_score`; every other
  -- field of every block and the order of the queue stay.
  pub ready_queue_decrement_job_length_score-IsQueue :
      Ends (λ _ t. IsQueue t (decrement_all xs)) (ready_queue_decrement_job_length_score fuel s)
  unfolding ready_queue_decrement_job_length_score
  ready_queue_decrement_job_length_score-IsQueue =
      subst (λ p. Ends (λ _ t. IsQueue t (decrement_all xs)) (decrement_loop fuel p s))
        (sym is.start)
        (Ends-mono (decrement_loop-Lowered fuel s.head s.cells xs is.linked is.distinct enough)
          λ _ t low. record {
            start = low.0 ∙ is.start ∙ sym (first-decrement_all xs null);
            linked = low.1;
            distinct = Distinct-decrement_all xs is.distinct;
          })

  -- `ready_queue_get_shortest_job_score` returns the least score in the queue: no score is below
  -- it, and a node has it unless it is the bound MAX_INT. It changes nothing.
  pub shortest_job_score-least :
      (m : ℕ) × (ready_queue_get_shortest_job_score fuel s ≡ done m s)
      × (m ≤ max_int)
      × NoneBelow m xs
      × ((m ≡ max_int) ⊎ Scored m xs)
  unfolding ready_queue_get_shortest_job_score
  shortest_job_score-least =
      let (le, above) = least-le max_int xs in
      (
        least max_int xs,
        subst (λ p. shortest_loop fuel p max_int s ≡ done (least max_int xs) s) (sym is.start)
            (shortest_loop-least fuel s xs max_int is.linked enough),
        le,
        above,
        least_reached max_int xs,
      )
