-- ===== src/A1/Interpreter/Branches.antt =====
-- Which command the `if` of a1/interpreter.c runs.
use comp310_w.Prelude.{
  if◌then◌else◌, ◌&&◌, not, Bool, true, false, Option, none, some, List, [], ◌∷◌, ◌++◌, Str, codes,
  str_eq, ◌≡◌, refl, ◌∙◌, ap, if_false,
}
use comp310_w.A1.Memory.{Cell}
use comp310_w.A1.Interpreter.{join, split_else, but_last, command, branch, value_of, holds, if_of}

-- No word is `else`.
abbrev pub NoElse : List Str → Type 0
NoElse [] = Unit
NoElse (w ∷ ws) = (str_eq w (codes "else") ≡ false) × NoElse ws

split_else-append :
    (ws rest : List Str) → NoElse ws → split_else (ws ++ codes "else" ∷ rest) ≡ some (ws, rest)
unfolding split_else str_eq
split_else-append [] rest n = refl
split_else-append (w ∷ ws) rest n =
    if_false _ _ n.0
    ∙ ap
        (λ (o : Option (List Str × List Str)). elim o [
          | none ↦ none
          | some (before, after) ↦ some (w ∷ before, after)
        ])
        (split_else-append ws rest n.1)

but_last-append : (ws : List Str) (w : Str) → but_last (ws ++ w ∷ []) ≡ ws
unfolding but_last
but_last-append [] w = refl
but_last-append (v ∷ []) w = refl
but_last-append (v ∷ u ∷ ws) w = ap (λ l. v ∷ l) (but_last-append (u ∷ ws) w)

-- On `if x op y then ... else ... fi` with `==` or `!=`, where both words have a value, neither branch is
-- empty, the first does not begin with `fi`, and no word of it is `else`: the command that goes to
-- `parseInput` is the first branch if the comparison of the values holds and the second one if not, with
-- one blank between two words, as long as it is shorter than 800 bytes.
pub if_of-branch :
    (m : List Cell) (x op y then_word c : Str) (cs : List Str) (d : Str) (ds : List Str)
    (fi vx vy : Str)
    → str_eq c (codes "fi") ≡ false
    → (not (str_eq op (codes "==")) && not (str_eq op (codes "!="))) ≡ false
    → value_of m x ≡ some vx
    → value_of m y ≡ some vy
    → NoElse (c ∷ cs)
    → if_of m (x ∷ op ∷ y ∷ then_word ∷ c ∷ (cs ++ codes "else" ∷ d ∷ (ds ++ fi ∷ [])))
      ≡ command (if holds vx op vy then join c cs else join d ds)
unfolding if_of branch
if_of-branch m x op y then_word c cs d ds fi vx vy filled known is_x is_y no_else =
    let found = split_else-append (c ∷ cs) (d ∷ (ds ++ fi ∷ [])) no_else in
    rw (filled, known, is_x, is_y) (ap (branch (holds vx op vy) c) found ∙ go (holds vx op vy))
  where
    go :
        (b : Bool)
        → branch b c (some (c ∷ cs, d ∷ (ds ++ fi ∷ [])))
          ≡ command (if b then join c cs else join d ds)
    go true = refl
    go false = ap (λ l. command (join d l)) (but_last-append ds fi)
