-- ===== src/A1/Memory/Text.antt =====
-- The text helpers of a1/shellmemory.c: `extract` undoes the assignment, `match` tests for a prefix.
use comp310_w.Prelude.{◌≤◌, ◌≡◌, refl, ◌↔◌, true, [], ◌∷◌, ◌++◌, Str, Lacks, arith, length}
use comp310_w.A1.Memory.{match_count, match, extract}

-- From "name=value" `extract` takes the value, which may hold '=' itself; the name may not.
pub extract-append : (name value : Str) → Lacks b'=' name → extract (name ++ b'=' ∷ value) ≡ value
unfolding extract
extract-append [] value h = refl
extract-append (c ∷ name) value h = ground (arith, extract-append name value h.1)

match_count-le : (model var : Str) → match_count model var ≤ length var
unfolding match_count
match_count-le model [] = omega arith
match_count-le [] (c ∷ var) = ground (arith, match_count-le [] var)
match_count-le (d ∷ model) (c ∷ var) = ground (arith, match_count-le model var)

prefix_of_match :
    (model var : Str)
    → Lacks 0 var
    → match_count model var ≡ length var
    → (rest : Str) × (model ≡ var ++ rest)
unfolding match_count
prefix_of_match model [] h e = (model, refl)
prefix_of_match [] (c ∷ var) h e = absurd (ground (arith, match_count-le [] var))
prefix_of_match (d ∷ model) (c ∷ var) h e =
    let same : d ≡ c = ground (arith, match_count-le model var) in
    let (rest, p) = prefix_of_match model var h.1 (ground arith) in (rest, rw (same, p))

match_of_prefix : (var rest : Str) → match_count (var ++ rest) var ≡ length var
unfolding match_count
match_of_prefix [] rest = refl
match_of_prefix (c ∷ var) rest = ground (arith, match_of_prefix var rest)

-- With no NUL in `var`, `match` holds exactly when `var` is a prefix of `model`.
pub match_iff_prefix :
    (model var : Str)
    → Lacks 0 var
    → (match model var ≡ true) ↔ ((rest : Str) × (model ≡ var ++ rest))
unfolding match
match_iff_prefix model var h = (
  λ e. prefix_of_match model var h (ground arith),
  λ (rest, p). rw p (ground (arith, match_of_prefix var rest)),
)
