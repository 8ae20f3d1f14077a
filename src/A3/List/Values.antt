-- ===== src/A3/List/Values.antt =====
-- The lists of a3/linked_list.c are searched for an index or for a value.
use mathlib.Core.List.{append-nil}
use mathlib.Core.Option.{some-injective}
use native.Mathlib.Decide.{dec_lt}
use comp310_w.Prelude.{
  ℕ, zero, suc, ◌+◌, ◌-◌, ◌≤◌, ◌<◌, leb, ◌==◌, if◌then◌else◌, Bool, Bool-cases, Option-cases, true,
  false, Option, none, some, List, [], ◌∷◌, ◌++◌, length, length-append, ◌≡◌, refl, sym, ◌∙◌, ap,
  if_true, if_false, arith, inl, inr,
}
use comp310_w.A3.List.{
  Ptr, null, Store, LinkedList, Outcome, done, crashed, walk, get_node_by_index, get_by_index,
  search, get_node_by_value,
}
use comp310_w.A3.List.Nodes.{nth, nth_append_left, IsList}
use comp310_w.A3.List.Ends.{nth_length}

-- What an index is to give: the element, or the use of the null pointer.
abbrev pub or_crash : {A : Type 0} → Option A → Outcome A
or_crash none = crashed
or_crash (some a) = done a

module _ {D : Type 0} where
  nth_beyond : (xs : List D) (i : ℕ) → length xs ≤ i → nth xs i ≡ none
  nth_beyond [] i h = refl
  nth_beyond (x ∷ xs) zero h = absurd (omega arith)
  nth_beyond (x ∷ xs) (suc i) h = nth_beyond xs i (omega arith)

  abbrev pub keep : D → Option (D × List D) → Option (D × List D)
  keep x none = none
  keep x (some (d, xs)) = some (d, x ∷ xs)

  -- The first element that is equal to a value, and the other elements.
  abbrev pub remove_first : (D → D → Bool) → D → List D → Option (D × List D)
  remove_first equal target [] = none
  remove_first equal target (x ∷ xs) =
      let rest = remove_first equal target xs in
      if equal target x then some (x, xs) else keep x rest

module _ {D : Type 0} (s : Store D) (list : LinkedList) (at : ℕ → Ptr) (xs : List D)
    (is_list : IsList s list at xs) where
  walk-at : (n j : ℕ) → n + j ≤ suc (length xs) → walk s n (at j) ≡ at (n + j)
  unfolding walk
  walk-at zero j h = let e : 0 + j ≡ j = omega arith in ap at (sym e)
  walk-at (suc n) j h =
      let e : n + suc j ≡ suc n + j = omega arith in
      ap (walk s n) (is_list.forth j (omega arith)) ∙ walk-at n (suc j) (omega arith) ∙ ap at e

  first_node : s.next list.dummy_head ≡ at 1
  first_node = ap s.next (sym (is_list.head)) ∙ is_list.forth 0 (omega arith)

  -- On a structure that stands for `xs`, `get_by_index` returns the element of `xs` at the index, and
  -- reads the null pointer if there is none.
  pub get_by_index-nth : (i : ℕ) → get_by_index list i s ≡ or_crash (nth xs i)
  unfolding get_by_index get_node_by_index
  get_by_index-nth i = elim (dec_lt i (length xs)) [
    | yes h ↦
        let inside : leb list.size i ≡ false = ground (arith, is_list.size) in
        let node : walk s i (s.next list.dummy_head) ≡ at (suc i) =
          ap (walk s i) first_node ∙ walk-at i 1 (omega arith) ∙ ap at (omega arith) in
        let there : (at (suc i) == null) ≡ false =
          let t = is_list.there (suc i) (omega arith) in ground arith in
        rw (inside, node, there, is_list.elements i h) refl
    | no h ↦
        let outside : leb list.size i ≡ true = ground (arith, is_list.size) in
        rw (outside, nth_beyond xs i (omega (arith, h))) refl
  ]

-- No element is equal to the value.
module _ {D : Type 0} (equal : D → D → Bool) (target : D) where
  abbrev pub NoneEqual : List D → Type 0
  NoneEqual xs = (i : ℕ) (d : D) → nth xs i ≡ some d → equal target d ≡ false

  NoneEqual-cons :
      (x : D) (xs : List D) → equal target x ≡ false → NoneEqual xs → NoneEqual (x ∷ xs)
  NoneEqual-cons x xs h t zero d e = ap (equal target) (some-injective d x (sym e)) ∙ h
  NoneEqual-cons x xs h t (suc i) d e = t i d e

  module _ (x : D) (xs : List D) where
    remove_first-hit : equal target x ≡ true → remove_first equal target (x ∷ xs) ≡ some (x, xs)
    remove_first-hit h = if_true _ _ h

    remove_first-miss :
        (o : Option (D × List D))
        → equal target x ≡ false
        → remove_first equal target xs ≡ o
        → remove_first equal target (x ∷ xs) ≡ keep x o
    remove_first-miss o h e = if_false _ _ h ∙ ap (keep x) e

  -- The list around the element that `remove_first` finds.
  pub data Found (xs : List D) (d : D) (others : List D) : Type 0 where
    found :
        (ys zs : List D)
        → xs ≡ ys ++ d ∷ zs
        → others ≡ ys ++ zs
        → NoneEqual ys
        → equal target d ≡ true
        → Found xs d others

  pub remove_first-Found :
      (xs : List D) (d : D) (others : List D)
      → remove_first equal target xs ≡ some (d, others)
      → Found xs d others
  remove_first-Found [] d others h = cc
  remove_first-Found (x ∷ xs) d others h = elim (Bool-cases (equal target x)) [
    | inl hit ↦
        let kept : D × List D = (x, xs) in
        let e : kept ≡ (d, others) =
          some-injective kept (d, others) (sym (remove_first-hit x xs hit) ∙ h) in
        let same : x ≡ d = ap (λ (p : D × List D). p.0) e in
        found [] xs (ap (λ y. y ∷ xs) same) (sym (ap (λ (p : D × List D). p.1) e)) (λ i y n. cc)
          (ap (equal target) (sym same) ∙ hit)
    | inr miss ↦ elim (Option-cases (remove_first equal target xs)) [
      | inl gone ↦ let e = sym (remove_first-miss x xs none miss gone) ∙ h in cc
      | inr ((y, ys), there) ↦
          let kept : D × List D = (y, x ∷ ys) in
          let e : some kept ≡ some (d, others) =
            sym (remove_first-miss x xs (some (y, ys)) miss there) ∙ h in
          let p : kept ≡ (d, others) = some-injective kept (d, others) e in
          let same : y ≡ d = ap (λ (p : D × List D). p.0) p in
          elim (remove_first-Found xs d ys (there ∙ ap (λ (z : D). some (z, ys)) same)) [
            | found before after whole rest none_equal hit ↦
                found (x ∷ before) after (ap (λ l. x ∷ l) whole)
                  (sym (ap (λ (p : D × List D). p.1) p) ∙ ap (λ l. x ∷ l) rest)
                  (NoneEqual-cons x before miss none_equal) hit
          ]
    ]
  ]

  pub remove_first-NoneEqual : (xs : List D) → remove_first equal target xs ≡ none → NoneEqual xs
  remove_first-NoneEqual [] h = λ i d e. cc
  remove_first-NoneEqual (x ∷ xs) h = elim (Bool-cases (equal target x)) [
    | inl hit ↦ let e = sym (remove_first-hit x xs hit) ∙ h in cc
    | inr miss ↦ elim (Option-cases (remove_first equal target xs)) [
      | inl gone ↦ NoneEqual-cons x xs miss (remove_first-NoneEqual xs gone)
      | inr ((y, ys), there) ↦
          let e = sym (remove_first-miss x xs (some (y, ys)) miss there) ∙ h in cc
    ]
  ]

module _ {D : Type 0} (s : Store D) (list : LinkedList) (at : ℕ → Ptr) (xs : List D)
    (is_list : IsList s list at xs) (equal : D → D → Bool) (target : D) where
  -- The search goes over elements that are not equal.
  search_skips :
      (n j fuel : ℕ)
      → n + j ≤ length xs
      → ((i : ℕ) → i < n + j → equal target (s.payload (at (suc i))) ≡ false)
      → search equal (n + fuel) target s (at (suc j))
        ≡ search equal fuel target s (at (suc (n + j)))
  unfolding search
  search_skips zero j fuel b none_equal =
      let e : 0 + fuel ≡ fuel = omega arith in
      let e2 : suc j ≡ suc (0 + j) = omega arith in rw (e, e2) refl
  search_skips (suc n) j fuel b none_equal =
      let e : suc n + fuel ≡ suc (n + fuel) = omega arith in
      let e2 : suc (n + suc j) ≡ suc (suc n + j) = omega arith in
      let there : (at (suc j) == null) ≡ false =
        let t = is_list.there (suc j) (omega arith) in ground arith in
      rw (e, there, none_equal j (omega arith), is_list.forth (suc j) (omega arith))
        (search_skips n (suc j) fuel (omega arith) (λ i h. none_equal i (omega arith))
          ∙ ap (λ k. search equal fuel target s (at k)) e2)

  NoneEqual-nodes :
      (ys zs : List D)
      → xs ≡ ys ++ zs
      → NoneEqual equal target ys
      → (i : ℕ) → i < length ys
      → equal target (s.payload (at (suc i))) ≡ false
  NoneEqual-nodes ys zs whole none_equal i h =
      let long : length xs ≡ length ys + length zs = ap length whole ∙ length-append ys zs in
      none_equal i (s.payload (at (suc i))) (
        sym (nth_append_left ys zs i h)
        ∙ ap (λ l. nth l i) (sym whole)
        ∙ is_list.elements i (omega (arith, h, long)))

  first : s.next list.dummy_head ≡ at 1
  first = ap s.next (sym (is_list.head)) ∙ is_list.forth 0 (omega arith)

  -- `get_node_by_value` gives the node of the first element that is equal.
  pub get_node_by_value_found :
      (ys : List D) (d : D) (zs : List D) (fuel : ℕ)
      → xs ≡ ys ++ d ∷ zs
      → NoneEqual equal target ys
      → equal target d ≡ true
      → length xs < fuel
      → get_node_by_value equal fuel target list s ≡ done (at (suc (length ys)))
  unfolding get_node_by_value search
  get_node_by_value_found ys d zs fuel whole none_equal hit enough =
      let long : length xs ≡ length ys + suc (length zs) =
        ap length whole ∙ length-append ys (d ∷ zs) in
      let e : fuel ≡ length ys + suc (fuel - suc (length ys)) = omega (arith, long, enough) in
      let e2 : suc (length ys + 0) ≡ suc (length ys) = omega arith in
      let there : (at (suc (length ys)) == null) ≡ false =
        let t = is_list.there (suc (length ys)) (omega (arith, long)) in ground arith in
      let here : s.payload (at (suc (length ys))) ≡ d =
        some-injective (s.payload (at (suc (length ys)))) d (
          sym (is_list.elements (length ys) (omega (arith, long)))
          ∙ ap (λ l. nth l (length ys)) whole
          ∙ nth_length ys d zs) in
      let last : search equal (suc (fuel - suc (length ys))) target s (at (suc (length ys)))
          ≡ done (at (suc (length ys))) =
        rw (there, here, hit) refl in
      ap (λ k. search equal k target s (s.next list.dummy_head)) e
      ∙ ap (search equal (length ys + suc (fuel - suc (length ys))) target s) first
      ∙ search_skips (length ys) 0 (suc (fuel - suc (length ys))) (omega (arith, long))
          (λ i h. NoneEqual-nodes ys (d ∷ zs) whole none_equal i (omega (arith, h)))
      ∙ ap (λ k. search equal (suc (fuel - suc (length ys))) target s (at k)) e2
      ∙ last

  -- It gives the null pointer if no element is equal, nor what the dummy node at the end holds.
  pub get_node_by_value_missing :
      (fuel : ℕ)
      → NoneEqual equal target xs
      → equal target (s.payload list.dummy_tail) ≡ false
      → suc (length xs) < fuel
      → get_node_by_value equal fuel target list s ≡ done null
  unfolding get_node_by_value search
  get_node_by_value_missing fuel none_equal junk enough =
      let n = length xs in
      let m = fuel - suc (suc n) in
      let e : fuel ≡ n + suc (suc m) = omega (arith, enough) in
      let e2 : at (suc (n + 0)) ≡ list.dummy_tail =
        let z : suc (n + 0) ≡ suc n = omega arith in ap at z ∙ is_list.tail in
      let there : (list.dummy_tail == null) ≡ false =
        let t = is_list.there (suc n) (omega arith) in let u = is_list.tail in ground arith in
      let last : search equal (suc (suc m)) target s list.dummy_tail ≡ done null =
        rw (there, junk, is_list.final) refl in
      ap (λ k. search equal k target s (s.next list.dummy_head)) e
      ∙ ap (search equal (n + suc (suc m)) target s) first
      ∙ search_skips n 0 (suc (suc m)) (omega arith)
          (λ i h. NoneEqual-nodes xs [] (sym (append-nil xs)) none_equal i (omega (arith, h)))
      ∙ ap (search equal (suc (suc m)) target s) e2
      ∙ last
