-- ===== src/Prelude/Scan.antt =====
-- The loop `for (i = lo; i < lo + n; i++) if (test(i)) return i;` and what it finds.
use Prim.Native.Nat.{ℕ, zero, suc, ◌+◌, ◌≤◌, ◌<◌}
use mathlib.Core.Path.{◌≡◌, refl}
use mathlib.Core.Logic.{◌≢◌, inl, inr}
use mathlib.Core.Bool.{Bool, true, false}
use mathlib.Core.Option.{Option, none, some}
use native.Mathlib.Omega.{arith}
use comp310_w.Prelude.Tests.{if◌then◌else◌, Bool-cases}

-- The first index from `i` on, of `n`, that passes the test.
unfoldable pub first_from : (ℕ → Bool) → ℕ → ℕ → Option ℕ
first_from test i zero = none
first_from test i (suc n) = let rest = first_from test (i + 1) n in if test i then some i else rest

-- What is known of an index that the loop returns.
pub record Found (test : ℕ → Bool) (i n j : ℕ) : Type 0 where
  pub low : i ≤ j
  pub high : j < i + n
  pub passes : test j ≡ true
  pub first : (k : ℕ) → i ≤ k → k < j → test k ≡ false

module _ (test : ℕ → Bool) where
  pub first_from-Found : (i n : ℕ) {j : ℕ} → first_from test i n ≡ some j → Found test i n j
  unfolding first_from
  first_from-Found i zero h = cc
  first_from-Found i (suc n) {j} h = elim (Bool-cases (test i)) [
    | inl e ↦
        let same : i ≡ j = ground arith in
        record {
          low = omega arith;
          high = omega arith;
          passes = rw (← same) e;
          first = λ k a b. absurd (omega arith);
        }
    | inr e ↦
        let f : Found test (i + 1) n j = first_from-Found (i + 1) n (ground arith) in
        record {
          low = omega (arith, f.low);
          high = omega (arith, f.high);
          passes = f.passes;
          first = λ k a b. ground (arith, f.first k);
        }
  ]

  pub first_from-none :
      (i n : ℕ) → first_from test i n ≡ none → (k : ℕ) → i ≤ k → k < i + n → test k ≡ false
  unfolding first_from
  first_from-none i zero h k a b = absurd (omega arith)
  first_from-none i (suc n) h k a b = ground (arith, first_from-none (i + 1) n (ground arith) k)

  pub first_from-some : (i n j : ℕ) → Found test i n j → first_from test i n ≡ some j
  unfolding first_from
  first_from-some i zero j f = absurd (omega arith)
  first_from-some i (suc n) j f = elim (Bool-cases (test i)) [
    | inl e ↦ let same : i ≡ j = grind (arith, f.first i) in rw e (ground arith)
    | inr e ↦
        let ne : i ≢ j = λ s. ground (arith, f.passes) in
        rw e (
          first_from-some (i + 1) n j (record {
            low = omega (arith, ne);
            high = omega arith;
            passes = f.passes;
            first = λ k a b. f.first k (omega arith) b;
          }))
  ]

pub first_from-congr :
    (test test' : ℕ → Bool) (i n : ℕ)
    → ((k : ℕ) → i ≤ k → k < i + n → test k ≡ test' k)
    → first_from test i n ≡ first_from test' i n
unfolding first_from
first_from-congr test test' i zero h = refl
first_from-congr test test' i (suc n) h =
    ground
      (arith, h i, first_from-congr test test' (i + 1) n (λ k a b. h k (omega arith) (omega arith)))
