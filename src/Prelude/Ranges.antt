-- ===== src/Prelude/Ranges.antt =====
-- Arrays that are filled by a counted loop, and the copies that memcpy makes of parts of them.
use Prim.Native.Nat.{ℕ, zero, suc, ◌+◌, ◌≤◌, ◌<◌}
use mathlib.Core.Path.{◌≡◌, refl, ap, ◌∙◌, sym}
use mathlib.Core.List.{List, [], ◌∷◌, ◌++◌}
use native.Mathlib.Omega.{arith}
use comp310_w.Prelude.Lists.{length, get_or}

module _ {ℓ} {A : Type ℓ} where
  -- f(i), ..., f(i + n - 1)
  unfoldable pub range : (ℕ → A) → ℕ → ℕ → List A
  range f i zero = []
  range f i (suc n) = f i ∷ range f (suc i) n

  -- The first elements, and those behind them.
  unfoldable pub take : ℕ → List A → List A
  take zero xs = []
  take (suc n) [] = []
  take (suc n) (x ∷ xs) = x ∷ take n xs

  unfoldable pub drop : ℕ → List A → List A
  drop zero xs = xs
  drop (suc n) [] = []
  drop (suc n) (x ∷ xs) = drop n xs

  pub range-congr :
      (f g : ℕ → A) (i j n : ℕ)
      → ((k : ℕ) → k < n → f (i + k) ≡ g (j + k))
      → range f i n ≡ range g j n
  unfolding range
  range-congr f g i j zero h = refl
  range-congr f g i j (suc n) h =
      let ei : i + 0 ≡ i = omega arith in
      let ej : j + 0 ≡ j = omega arith in
      let first : f i ≡ g j = ap f (sym ei) ∙ h 0 (omega arith) ∙ ap g ej in
      let rest = range-congr f g (suc i) (suc j) n (λ k b.
        let si : suc i + k ≡ i + suc k = omega arith in
        let sj : suc j + k ≡ j + suc k = omega arith in
        ap f si ∙ h (suc k) (omega arith) ∙ ap g (sym sj)) in
      rw (first, rest)

  pub range-append : (f : ℕ → A) (i m n : ℕ) → range f i (m + n) ≡ range f i m ++ range f (i + m) n
  unfolding range
  range-append f i zero n =
      let en : 0 + n ≡ n = omega arith in let ei : i + 0 ≡ i = omega arith in rw (en, ei)
  range-append f i (suc m) n =
      let en : suc m + n ≡ suc (m + n) = omega arith in
      let ei : i + suc m ≡ suc i + m = omega arith in
      rw (en, ei) (ap (λ l. f i ∷ l) (range-append f (suc i) m n))

  pub length-range : (f : ℕ → A) (i n : ℕ) → length (range f i n) ≡ n
  unfolding range
  length-range f i zero = refl
  length-range f i (suc n) = ap suc (length-range f (suc i) n)

  pub get_or-range : (f : ℕ → A) (a n i : ℕ) (d : A) → i < n → get_or (range f a n) i d ≡ f (a + i)
  unfolding range
  get_or-range f a zero i d h = absurd (omega arith)
  get_or-range f a (suc n) zero d h = let e : a + 0 ≡ a = omega arith in ap f (sym e)
  get_or-range f a (suc n) (suc i) d h =
      let e : suc a + i ≡ a + suc i = omega arith in
      get_or-range f (suc a) n i d (omega arith) ∙ ap f e

  range-shift :
      (x : A) (xs : List A) (d : A) (i n : ℕ)
      → range (λ i. get_or xs i d) i n ≡ range (λ i. get_or (x ∷ xs) i d) (suc i) n
  unfolding range
  range-shift x xs d i zero = refl
  range-shift x xs d i (suc n) = ap (λ l. get_or xs i d ∷ l) (range-shift x xs d (suc i) n)

  pub take-range :
      (xs : List A) (d : A) (n : ℕ) → n ≤ length xs → take n xs ≡ range (λ i. get_or xs i d) 0 n
  unfolding take range
  take-range xs d zero h = refl
  take-range [] d (suc n) h = absurd (omega arith)
  take-range (x ∷ xs) d (suc n) h =
      ap (λ l. x ∷ l) (take-range xs d n (omega arith) ∙ range-shift x xs d 0 n)

  pub take-drop :
      (xs : List A) (d : A) (o n : ℕ)
      → o + n ≤ length xs
      → take n (drop o xs) ≡ range (λ i. get_or xs i d) o n
  unfolding drop
  take-drop xs d zero n h = take-range xs d n (omega arith)
  take-drop [] d (suc o) n h = absurd (omega arith)
  take-drop (x ∷ xs) d (suc o) n h = take-drop xs d o n (omega arith) ∙ range-shift x xs d o n

  pub take-all : (xs : List A) (n : ℕ) → length xs ≡ n → take n xs ≡ xs
  unfolding take
  take-all [] zero h = refl
  take-all [] (suc n) h = refl
  take-all (x ∷ xs) zero h = absurd (omega arith)
  take-all (x ∷ xs) (suc n) h = ap (λ l. x ∷ l) (take-all xs n (omega arith))
