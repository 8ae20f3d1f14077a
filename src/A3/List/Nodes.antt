-- ===== src/A3/List/Nodes.antt =====
-- What list a structure of nodes stands for (a3/linked_list.c), and how a node comes in and goes out.
use comp310_w.Prelude.{
  ℕ, zero, suc, ◌+◌, ◌-◌, ◌≤◌, ◌<◌, leb, ◌==◌, if◌then◌else◌, true, false, Option, none, some, List,
  [], ◌∷◌, ◌++◌, length, ◌≡◌, ◌≢◌, refl, ◌∙◌, ap, if_true, if_false, arith,
}
use comp310_w.A3.List.{Ptr, null, Store, LinkedList}

-- The element at an index.
abbrev pub nth {ℓ} : {A : Type ℓ} → List A → ℕ → Option A
nth [] i = none
nth (x ∷ xs) zero = some x
nth (x ∷ xs) (suc i) = nth xs i

pub nth_append_left {ℓ} :
    {A : Type ℓ} (xs ys : List A) (i : ℕ) → i < length xs → nth (xs ++ ys) i ≡ nth xs i
nth_append_left [] ys i h = absurd (omega arith)
nth_append_left (x ∷ xs) ys zero h = refl
nth_append_left (x ∷ xs) ys (suc i) h = nth_append_left xs ys i (omega arith)

pub nth_append_right {ℓ} :
    {A : Type ℓ} (xs ys : List A) (i : ℕ) → nth (xs ++ ys) (length xs + i) ≡ nth ys i
nth_append_right [] ys i = let e : 0 + i ≡ i = omega arith in rw e refl
nth_append_right (x ∷ xs) ys i =
    let e : suc (length xs) + i ≡ suc (length xs + i) = omega arith in
    rw e (nth_append_right xs ys i)

-- The nodes `at 0`, ..., `at (n + 1)` from one dummy node to the other: each points to its two
-- neighbours, they are different, and those between hold the elements.
pub record IsList {D : Type 0} (s : Store D) (list : LinkedList) (at : ℕ → Ptr) (xs : List D)
    : Type 0 where
  pub head : at 0 ≡ list.dummy_head
  pub tail : at (suc (length xs)) ≡ list.dummy_tail
  pub size : list.size ≡ length xs
  pub forth : (i : ℕ) → i ≤ length xs → s.next (at i) ≡ at (suc i)
  pub back : (i : ℕ) → i ≤ length xs → s.prev (at (suc i)) ≡ at i
  pub distinct : (i j : ℕ) → i ≤ suc (length xs) → j ≤ suc (length xs) → at i ≡ at j → i ≡ j
  pub there : (i : ℕ) → i ≤ suc (length xs) → at i ≢ null
  pub final : s.next list.dummy_tail ≡ null
  pub elements : (i : ℕ) → i < length xs → nth xs i ≡ some (s.payload (at (suc i)))

-- The nodes with one more behind the `k`-th, and without the one behind it.
abbrev pub insert_at : ℕ → Ptr → (ℕ → Ptr) → ℕ → Ptr
insert_at k new at i = if leb i k then at i else if i == suc k then new else at (i - 1)

abbrev pub remove_at : ℕ → (ℕ → Ptr) → ℕ → Ptr
remove_at k at i = if leb i k then at i else at (suc i)

module _ (k : ℕ) (new : Ptr) (at : ℕ → Ptr) where
  pub insert_at_low : (i : ℕ) → i ≤ k → insert_at k new at i ≡ at i
  insert_at_low i h = let e : leb i k ≡ true = ground arith in if_true _ _ e

  pub insert_at_here : insert_at k new at (suc k) ≡ new
  insert_at_here =
      let e : leb (suc k) k ≡ false = ground arith in
      let e2 : (suc k == suc k) ≡ true = ground arith in if_false _ _ e ∙ if_true _ _ e2

  pub insert_at_high : (i : ℕ) → k < i → insert_at k new at (suc i) ≡ at i
  insert_at_high i h =
      let e : leb (suc i) k ≡ false = ground arith in
      let e2 : (suc i == suc k) ≡ false = ground arith in
      let e3 : suc i - 1 ≡ i = omega arith in if_false _ _ e ∙ if_false _ _ e2 ∙ ap at e3

module _ (k : ℕ) (at : ℕ → Ptr) where
  pub remove_at_low : (i : ℕ) → i ≤ k → remove_at k at i ≡ at i
  remove_at_low i h = let e : leb i k ≡ true = ground arith in if_true _ _ e

  pub remove_at_high : (i : ℕ) → k < i → remove_at k at i ≡ at (suc i)
  remove_at_high i h = let e : leb i k ≡ false = ground arith in if_false _ _ e
