-- ===== src/Prelude/Update.antt =====
-- An array or a field of all nodes, as a function, in which one place is written.
use Prim.Native.Nat.{ℕ}
use mathlib.Core.Path.{◌≡◌}
use mathlib.Core.Logic.{◌≢◌}
use mathlib.Core.Bool.{true, false}
use native.Mathlib.Omega.{arith}
use comp310_w.Prelude.Tests.{◌==◌, if◌then◌else◌, if_true, if_false}

abbrev pub update {ℓ} : {A : Type ℓ} → (ℕ → A) → ℕ → A → ℕ → A
update f x v y = if x == y then v else f y

pub update_self {ℓ} : {A : Type ℓ} (f : ℕ → A) (x : ℕ) (v : A) → update f x v x ≡ v
update_self f x v = let same : (x == x) ≡ true = ground arith in if_true _ _ same

pub update_ne {ℓ} : {A : Type ℓ} (f : ℕ → A) (x y : ℕ) (v : A) → x ≢ y → update f x v y ≡ f y
update_ne f x y v h = let apart : (x == y) ≡ false = ground arith in if_false _ _ apart
