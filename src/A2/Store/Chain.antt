-- ===== src/A2/Store/Chain.antt =====
-- What the cells of a queue stand for: the nodes in order, each with its address and its block.
use comp310_w.Prelude.{
  ◌==◌, ◌≡◌, refl, ◌≢◌, ◌||◌, Bool, true, false, some, Option, List, [], ◌∷◌, ◌++◌, arith,
}
use comp310_w.A2.Pcb.{Pcb}
use comp310_w.A2.Store.{
  Ptr, null, QueueNode, node, Cells, Store, Outcome, done, Cmd, chain, write, load, set_next,
  set_pcb,
}

abbrev pub Nodes : Type 0
Nodes = List (Ptr × Pcb)

-- The address at which a chain of nodes begins, if it ends at `stop`.
abbrev pub first : Nodes → Ptr → Ptr
first [] stop = stop
first ((p, _) ∷ _) stop = p

abbrev pub has : Ptr → Nodes → Bool
has a [] = false
has a ((p, _) ∷ xs) = (a == p) || has a xs

abbrev pub Distinct : Nodes → Type 0
Distinct [] = Unit
Distinct ((p, _) ∷ xs) = (has p xs ≡ false) × Distinct xs

-- Each node is where it should be and points to the one behind it, the last one to `stop`.
abbrev pub Linked : Cells → Ptr → Nodes → Type 0
Linked h stop [] = Unit
Linked h stop ((p, b) ∷ xs) = (p ≢ null) × (h p ≡ some (node b (first xs stop))) × Linked h stop xs

pub record IsQueue (s : Store) (xs : Nodes) : Type 0 where
  pub start : s.head ≡ first xs null
  pub linked : Linked s.cells null xs
  pub distinct : Distinct xs

-- Total correctness: the command ends, with neither a crash nor too little fuel.
pub data Ends {A : Type 0} (P : A → Store → Type 0) : Outcome A → Type 0 where
  ends : {a : A} {s : Store} → P a s → Ends P (done a s)

-- The result and the store of a command that ends.
pub result_of_Ends :
    {A : Type 0} {P : A → Store → Type 0} {r : Outcome A}
    → Ends P r
    → (a : A) × (s : Store) × (r ≡ done a s) × P a s
result_of_Ends (ends {a} {s} p) = (a, s, refl, p)

pub Ends-chain :
    {A B : Type 0} {P : A → Store → Type 0} {Q : B → Store → Type 0} {r : Outcome A} {k : A → Cmd B}
    → Ends P r
    → ((a : A) (s : Store) → P a s → Ends Q (k a s))
    → Ends Q (chain r k)
Ends-chain (ends p) next = next _ _ p

pub Ends-mono :
    {A : Type 0} {P Q : A → Store → Type 0} {r : Outcome A}
    → Ends P r
    → ((a : A) (s : Store) → P a s → Q a s)
    → Ends Q r
Ends-mono (ends p) weaken = ends (weaken _ _ p)

module _ (p : Ptr) (n : QueueNode) (s : Store) (there : s.cells p ≡ some n) (ne : p ≢ null) where
  pub load-done : load p s ≡ done n s
  unfolding load
  load-done = ground arith

  pub set_next-done :
      (q : Ptr)
      → set_next p q s
        ≡ done tt (record s { cells = write s.cells p (some (record n { next = q })) })
  unfolding set_next
  set_next-done q = rw load-done

  pub set_pcb-done :
      (b : Pcb)
      → set_pcb p b s ≡ done tt (record s { cells = write s.cells p (some (record n { pcb = b })) })
  unfolding set_pcb
  set_pcb-done b = rw load-done

pub write_self : (h : Cells) (a : Ptr) (c : Option QueueNode) → write h a c a ≡ c
unfolding write
write_self h a c = ground arith

pub write_ne : (h : Cells) (a x : Ptr) (c : Option QueueNode) → x ≢ a → write h a c x ≡ h x
unfolding write
write_ne h a x c ne = ground arith

-- The address at which a chain begins is that of a node, or the end.
pub first_ne_of_not_has :
    (a r : Ptr) (xs : Nodes) → has a xs ≡ false → a ≢ r → (first xs r == a) ≡ false
first_ne_of_not_has a r [] out ne = ground arith
first_ne_of_not_has a r ((p, b) ∷ xs) out ne = ground arith

pub has-first : (x : Ptr) (d : Pcb) (xs : Nodes) → has x ((x, d) ∷ xs) ≡ true
has-first x d xs = ground arith

pub has-later : (x y : Ptr) (d : Pcb) (xs : Nodes) → has x xs ≡ true → has x ((y, d) ∷ xs) ≡ true
has-later x y d xs i = ground arith

pub has-append : (a : Ptr) (xs ys : Nodes) → has a (xs ++ ys) ≡ (has a xs || has a ys)
has-append a [] ys = refl
has-append a (x ∷ xs) ys = ground (arith, has-append a xs ys)

-- What it says that an address is in no node of a chain.
pub not_has-cons :
    (a p : Ptr) (b : Pcb) (xs : Nodes) → has a ((p, b) ∷ xs) ≡ false → (a ≢ p) × (has a xs ≡ false)
not_has-cons a p b xs h = (λ e. ground arith, ground arith)

pub not_has_of :
    (a p : Ptr) (b : Pcb) (xs : Nodes) → a ≢ p → has a xs ≡ false → has a ((p, b) ∷ xs) ≡ false
not_has_of a p b xs ne out = ground arith

pub not_has-append :
    (a : Ptr) (xs ys : Nodes) → has a (xs ++ ys) ≡ false → (has a xs ≡ false) × (has a ys ≡ false)
not_has-append a xs ys h = (ground (arith, has-append a xs ys), ground (arith, has-append a xs ys))

pub first-append : (xs ys : Nodes) (stop : Ptr) → first (xs ++ ys) stop ≡ first xs (first ys stop)
first-append [] ys stop = refl
first-append (x ∷ xs) ys stop = refl

module _ (h : Cells) (stop : Ptr) where
  -- A change elsewhere keeps a chain.
  pub Linked-frame :
      (g : Cells) (xs : Nodes)
      → Linked h stop xs
      → ((a : Ptr) → has a xs ≡ true → g a ≡ h a)
      → Linked g stop xs
  Linked-frame g [] l same = tt
  Linked-frame g ((p, b) ∷ xs) l same =
      (l.0, ground (arith, same p), Linked-frame g xs l.2 (λ a i. same a (ground arith)))

  pub Linked-write :
      (a : Ptr) (c : Option QueueNode) (xs : Nodes)
      → Linked h stop xs
      → has a xs ≡ false
      → Linked (write h a c) stop xs
  unfolding write
  Linked-write a c xs l out = Linked-frame _ xs l (λ q i. ground arith)

  pub Linked-right : (xs ys : Nodes) → Linked h stop (xs ++ ys) → Linked h stop ys
  Linked-right [] ys l = l
  Linked-right (x ∷ xs) ys l = Linked-right xs ys l.2

  pub Linked-append :
      (xs ys : Nodes) → Linked h (first ys stop) xs → Linked h stop ys → Linked h stop (xs ++ ys)
  Linked-append [] ys l m = m
  Linked-append ((p, b) ∷ xs) ys l m =
      (l.0, rw (first-append xs ys stop) (l.1), Linked-append xs ys l.2 m)

  pub Linked-left : (xs ys : Nodes) → Linked h stop (xs ++ ys) → Linked h (first ys stop) xs
  Linked-left [] ys l = tt
  Linked-left ((p, b) ∷ xs) ys l =
      (l.0, rw (first-append xs ys stop) at (l.1), Linked-left xs ys l.2)

-- The nodes of two parts are apart.
pub Distinct-right : (xs ys : Nodes) → Distinct (xs ++ ys) → Distinct ys
Distinct-right [] ys d = d
Distinct-right (x ∷ xs) ys d = Distinct-right xs ys d.1

pub Distinct-apart :
    (xs ys : Nodes) (a : Ptr) → Distinct (xs ++ ys) → has a ys ≡ true → has a xs ≡ false
Distinct-apart [] ys a d i = refl
Distinct-apart ((p, b) ∷ xs) ys a d i =
    ground (arith, has-append p xs ys, Distinct-apart xs ys a d.1)

pub Distinct-append :
    (xs ys : Nodes)
    → Distinct xs
    → Distinct ys
    → ((a : Ptr) → has a ys ≡ true → has a xs ≡ false)
    → Distinct (xs ++ ys)
Distinct-append [] ys d e apart = e
Distinct-append ((p, b) ∷ xs) ys d e apart = (
  ground (arith, has-append p xs ys, apart p),
  Distinct-append xs ys d.1 e (λ a i. ground (arith, apart a)),
)

-- Two neighbours may change places.
pub has-swap :
    (a : Ptr) (xs ys : Nodes) (c d : Ptr × Pcb)
    → has a (xs ++ d ∷ c ∷ ys) ≡ has a (xs ++ c ∷ d ∷ ys)
has-swap a [] ys (p, b) (q, e) = ground arith
has-swap a (x ∷ xs) ys c d = ground (arith, has-swap a xs ys c d)

pub Distinct-swap :
    (xs ys : Nodes) (c d : Ptr × Pcb) → Distinct (xs ++ c ∷ d ∷ ys) → Distinct (xs ++ d ∷ c ∷ ys)
Distinct-swap [] ys (p, b) (q, e) h = ground arith
Distinct-swap ((p, b) ∷ xs) ys c d h =
    (rw (has-swap p xs ys c d) (h.0), Distinct-swap xs ys c d h.1)
