-- ===== src/A2/ReadyQueue/Swap/Search.antt =====
-- The walk of `ready_queue_swap_with_next` to the node before the one to swap (a2/ready_queue.c).
use comp310_w.Prelude.{
  ℕ, zero, suc, ◌+◌, ◌<◌, ◌≡◌, ◌≢◌, ◌==◌, true, false, [], ◌∷◌, ◌++◌, arith, length,
}
use comp310_w.A2.Pcb.{Pcb}
use comp310_w.A2.Store.{Ptr, null, Store, done}
use comp310_w.A2.Store.Chain.{
  Nodes, first, has, Linked, load-done, first-append, not_has-cons, first_ne_of_not_has,
}
use comp310_w.A2.ReadyQueue.{find_before}

-- The walk runs off the end if no node of the chain points to the one that is sought.
pub find_before-null :
    (k : ℕ) (s : Store) (to_swap : Ptr) (p : Ptr) (a : Pcb) (xs : Nodes)
    → Linked s.cells null ((p, a) ∷ xs)
    → has to_swap xs ≡ false
    → to_swap ≢ null
    → length xs + 1 < k
    → find_before k to_swap p s ≡ done null s
unfolding find_before
find_before-null zero s to_swap p a xs l out ne enough = absurd (omega arith)
find_before-null (suc zero) s to_swap p a xs l out ne enough = absurd (omega arith)
find_before-null (suc (suc k)) s to_swap p a [] l out ne enough =
    let stop : (p == null) ≡ false = ground arith in
    let miss : (null == to_swap) ≡ false = ground arith in
    rw (stop, load-done p _ s (l.1) (l.0), miss)
find_before-null (suc (suc k)) s to_swap p a ((q, b) ∷ xs) l out ne enough =
    let stop : (p == null) ≡ false = ground arith in
    let miss : (q == to_swap) ≡ false = ground arith in
    rw (stop, load-done p _ s (l.1) (l.0), miss)
      (find_before-null (suc k) s to_swap q b xs l.2 (ground arith) ne (omega arith))

-- The walk stops at the node before the one that is sought.
pub find_before-done :
    (k : ℕ) (s : Store) (to_swap : Ptr) (xs : Nodes) (r : Ptr) (c : Pcb) (ys : Nodes)
    → Linked s.cells null (xs ++ (r, c) ∷ ys)
    → has to_swap xs ≡ false
    → to_swap ≢ r
    → first ys null ≡ to_swap
    → length xs < k
    → find_before k to_swap (first xs r) s ≡ done r s
unfolding find_before
find_before-done zero s to_swap xs r c ys l out ne here enough = absurd (omega arith)
find_before-done (suc k) s to_swap [] r c ys l out ne here enough =
    let stop : (r == null) ≡ false = ground arith in
    let hit : (first ys null == to_swap) ≡ true = ground arith in
    rw (stop, load-done r _ s (l.1) (l.0), hit)
find_before-done (suc k) s to_swap ((p, a) ∷ xs) r c ys l out ne here enough =
    let stop : (p == null) ≡ false = ground arith in
    let miss : (first xs r == to_swap) ≡ false =
      first_ne_of_not_has to_swap r xs (not_has-cons to_swap p a xs out).1 ne in
    rw (stop, load-done p _ s (l.1) (l.0), first-append xs ((r, c) ∷ ys) null, miss)
      (find_before-done k s to_swap xs r c ys l.2 (ground arith) ne here (omega arith))
