-- ===== src/Prelude/Span.antt =====
-- Splitting a string at the first byte of a kind, and what a word without such bytes does.
use Prim.Native.Nat.{ℕ}
use mathlib.Core.Path.{◌≡◌, refl, ap}
use mathlib.Core.Bool.{Bool, true, false}
use mathlib.Core.List.{[], ◌∷◌, ◌++◌}
use comp310_w.Prelude.Tests.{◌==◌, if◌then◌else◌}
use comp310_w.Prelude.Bytes.{Str}

module _ (stop : ℕ → Bool) where
  -- The bytes before the first one that stops.
  unfoldable pub take_until : Str → Str
  take_until [] = []
  take_until (c ∷ s) = let rest = take_until s in if stop c then [] else c ∷ rest

  -- The bytes from the first one on that stops.
  unfoldable pub drop_until : Str → Str
  drop_until [] = []
  drop_until (c ∷ s) = let rest = drop_until s in if stop c then c ∷ s else rest

  -- No byte of the string stops.
  abbrev pub NoStop : Str → Type 0
  NoStop [] = Unit
  NoStop (c ∷ s) = (stop c ≡ false) × NoStop s

  pub take_until-append :
      (w : Str) (c : ℕ) (s : Str) → NoStop w → stop c ≡ true → take_until (w ++ c ∷ s) ≡ w
  unfolding take_until
  take_until-append [] c s n e = rw e
  take_until-append (x ∷ w) c s n e = rw (n.0) (ap (λ l. x ∷ l) (take_until-append w c s n.1 e))

  pub drop_until-append :
      (w : Str) (c : ℕ) (s : Str) → NoStop w → stop c ≡ true → drop_until (w ++ c ∷ s) ≡ c ∷ s
  unfolding drop_until
  drop_until-append [] c s n e = rw e
  drop_until-append (x ∷ w) c s n e = rw (n.0) (drop_until-append w c s n.1 e)

  pub take_until-all : (w : Str) → NoStop w → take_until w ≡ w
  unfolding take_until
  take_until-all [] n = refl
  take_until-all (x ∷ w) n = rw (n.0) (ap (λ l. x ∷ l) (take_until-all w n.1))

  pub drop_until-all : (w : Str) → NoStop w → drop_until w ≡ []
  unfolding drop_until
  drop_until-all [] n = refl
  drop_until-all (x ∷ w) n = rw (n.0) (drop_until-all w n.1)

-- The loop that passes over blanks.
unfoldable pub skip_spaces : Str → Str
skip_spaces [] = []
skip_spaces (c ∷ s) = let rest = skip_spaces s in if c == b' ' then rest else c ∷ s

-- The string behind its first byte; nothing behind the closing NUL.
abbrev pub behind : Str → Str
behind [] = []
behind (c ∷ s) = s

abbrev pub null_string : Str → Bool
null_string [] = true
null_string (c ∷ s) = false
