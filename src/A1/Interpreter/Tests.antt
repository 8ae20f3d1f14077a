-- ===== src/A1/Interpreter/Tests.antt =====
-- The commands of the first shell on a memory in which x is 1.
use comp310_w.Prelude.{
  if◌then◌else◌, false, some, List, [], ◌∷◌, codes, str_eq, ◌≡◌, refl, ◌&&◌, not,
}
use comp310_w.Prelude.Span.{take_until}
use comp310_w.A1.Memory.{Cell, cell}
use comp310_w.A1.Interpreter.{
  bad, unknown_command, missing, set, join, set_of, command, value_of, holds, if_of, by_name,
  dispatch,
}
use comp310_w.A1.Interpreter.Branches.{NoElse, if_of-branch}

abbrev memory : List Cell
memory = cell (codes "x") (codes "1") ∷ []

set_words :
    dispatch memory (codes "set" ∷ codes "y" ∷ codes "a" ∷ codes "b\n" ∷ [])
    ≡ set (codes "y") (codes "a b")
unfolding dispatch by_name set_of join str_eq take_until
set_words = refl

-- An `if` of three words reads a word that is not there.
if_short : dispatch memory (codes "if" ∷ codes "a" ∷ codes "==" ∷ []) ≡ missing
unfolding dispatch by_name if_of str_eq take_until
if_short = refl

-- Three arguments are too many for all but two commands.
three_arguments :
    dispatch memory (codes "echo" ∷ codes "a" ∷ codes "b" ∷ codes "c" ∷ []) ≡ bad unknown_command
unfolding dispatch str_eq
three_arguments = refl

fi_apart : str_eq (codes "echo") (codes "fi") ≡ false
unfolding str_eq
fi_apart = refl

equal_known :
    (not (str_eq (codes "==") (codes "==")) && not (str_eq (codes "==") (codes "!="))) ≡ false
unfolding str_eq
equal_known = refl

a_known : value_of memory (codes "a") ≡ some (codes "a")
unfolding value_of
a_known = refl

no_else : NoElse (codes "echo" ∷ codes "b" ∷ [])
unfolding str_eq
no_else = (refl, (refl, tt))

if_of-branch_example :
    if_of memory (
      codes "a"
      ∷ codes "=="
      ∷ codes "a"
      ∷ codes "then"
      ∷ codes "echo"
      ∷ codes "b"
      ∷ codes "else"
      ∷ codes "echo"
      ∷ codes "c"
      ∷ codes "fi"
      ∷ [])
    ≡ command (
        if holds (codes "a") (codes "==") (codes "a")
        then join (codes "echo") (codes "b" ∷ [])
        else join (codes "echo") (codes "c" ∷ []))
if_of-branch_example =
    if_of-branch memory (codes "a") (codes "==") (codes "a") (codes "then") (codes "echo")
      (codes "b" ∷ []) (codes "echo") (codes "c" ∷ []) (codes "fi") (codes "a") (codes "a") fi_apart
      equal_known a_known a_known no_else
