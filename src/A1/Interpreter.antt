-- ===== src/A1/Interpreter.antt =====
-- The dispatch of commands of the first shell, up to each call (a1/interpreter.c).
pub mod Branches
mod Tests
use comp310_w.Prelude.{
  ℕ, zero, suc, ◌==◌, ltb, if◌then◌else◌, ◌&&◌, ◌||◌, not, Bool, true, false, Option, none, some,
  List, [], ◌∷◌, ◌++◌, map, Str, codes, str_eq, length,
}
use comp310_w.Prelude.Span.{take_until}
use comp310_w.A1.Memory.{Cell, mem_get_value}

-- The functions that print an error.
pub data Bad : Type 0 where
  unknown_command bad_set bad_cd bad_cat empty_if bad_if : Bad

-- What they return.
abbrev pub code_of : Bad → ℕ
code_of unknown_command = 1
code_of bad_set = 4
code_of bad_cd = 5
code_of bad_cat = 6
code_of empty_if = 6
code_of bad_if = 6

-- An error; a call; the command line that `if` hands to `parseInput`; the use of a word that is not
-- there; a write behind a buffer of 800 bytes.
pub data Action : Type 0 where
  bad : Bad → Action
  help quit my_ls : Action
  set : Str → Str → Action
  print run echo my_mkdir my_touch my_cd my_cat my_wc : Str → Action
  parse : Str → Action
  missing overflow : Action

abbrev pub line_end : ℕ → Bool
line_end c = (c == 13) || (c == 10)

abbrev pub strip : Str → Str
strip s = take_until line_end s

-- Words with one blank between two.
unfoldable pub join : Str → List Str → Str
join w [] = w
join w (v ∷ ws) = w ++ b' ' ∷ join v ws

-- Whether there is exactly one argument.
abbrev pub one : Bad → List Str → (Str → Action) → Action
one e (a ∷ []) f = f a
one e [] f = bad e
one e (a ∷ b ∷ args) f = bad e

abbrev pub no_argument : List Str → Action → Action
no_argument [] a = a
no_argument (x ∷ args) a = bad unknown_command

abbrev pub echo_of : List Str → Action
echo_of [] = missing
echo_of (a ∷ []) = echo a
echo_of (a ∷ b ∷ args) = bad unknown_command

unfoldable pub set_of : List Str → Action
set_of [] = bad bad_set
set_of (var ∷ []) = bad bad_set
set_of (var ∷ v ∷ vs) =
    if ltb 6 (length (var ∷ v ∷ vs))
    then bad bad_set
    else if ltb (length (join v vs)) 800
    then set var (join v vs)
    else overflow

-- The words before and behind the first `else`.
unfoldable pub split_else : List Str → Option (List Str × List Str)
split_else [] = none
split_else (w ∷ ws) =
    let rest = split_else ws in
    if str_eq w (codes "else")
    then some ([], ws)
    else elim rest [ none ↦ none | some (before, after) ↦ some (w ∷ before, after) ]

-- All words but the last.
unfoldable pub but_last : List Str → List Str
but_last [] = []
but_last (w ∷ ws) = let rest = but_last ws in elim ws [ [] ↦ [] | v ∷ vs ↦ w ∷ rest ]

abbrev pub command : Str → Action
command line = if ltb (length line) 800 then parse line else overflow

-- The command of the branch that is taken, from the word `c` behind `then` and the words around the
-- first `else`, if there is one.
unfoldable pub branch : Bool → Str → Option (List Str × List Str) → Action
branch condition c none = bad bad_if
branch true c (some ([], after)) = command c
branch true c (some (w ∷ before, after)) = command (join c before)
branch false c (some (before, [])) = missing
branch false c (some (before, d ∷ after)) = command (join d (but_last after))

-- The value of a word, of a variable if it begins with `$`; none for a variable that is not there.
unfoldable pub value_of : List Cell → Str → Option Str
value_of m [] = some []
value_of m (c ∷ s) = if c == b'$' then mem_get_value m s else some (c ∷ s)

unfoldable pub holds : Str → Str → Str → Bool
holds x op y =
    (str_eq x y && str_eq op (codes "==")) || (not (str_eq x y) && str_eq op (codes "!="))

-- `if`: neither `then` nor the last word is looked at.
unfoldable pub if_of : List Cell → List Str → Action
if_of m (x ∷ op ∷ y ∷ then_word ∷ c ∷ ws) =
    if str_eq c (codes "fi")
    then bad empty_if
    else if not (str_eq op (codes "==")) && not (str_eq op (codes "!="))
    then bad bad_if
    else elim (value_of m x) [
      | none ↦ bad bad_if
      | some vx ↦ elim (value_of m y) [
        | none ↦ bad bad_if
        | some vy ↦ branch (holds vx op vy) c (split_else (c ∷ ws))
      ]
    ]
if_of m [] = missing
if_of m (x ∷ []) = missing
if_of m (x ∷ op ∷ []) = missing
if_of m (x ∷ op ∷ y ∷ []) = missing
if_of m (x ∷ op ∷ y ∷ then_word ∷ []) = missing

-- The chain of comparisons of the first word.
unfoldable pub by_name : List Cell → Str → List Str → Action
by_name m name args =
    if str_eq name (codes "help")
    then no_argument args help
    else if str_eq name (codes "quit")
    then no_argument args quit
    else if str_eq name (codes "set")
    then set_of args
    else if str_eq name (codes "print")
    then one unknown_command args (λ a. print a)
    else if str_eq name (codes "run")
    then one unknown_command args (λ a. run a)
    else if str_eq name (codes "echo")
    then echo_of args
    else if str_eq name (codes "my_ls")
    then no_argument args my_ls
    else if str_eq name (codes "my_mkdir")
    then one unknown_command args (λ a. my_mkdir a)
    else if str_eq name (codes "my_touch")
    then one unknown_command args (λ a. my_touch a)
    else if str_eq name (codes "my_cd")
    then one bad_cd args (λ a. my_cd a)
    else if str_eq name (codes "my_cat")
    then one bad_cat args (λ a. my_cat a)
    else if str_eq name (codes "if")
    then if_of m args
    else if str_eq name (codes "my_wc")
    then one unknown_command args (λ a. my_wc a)
    else bad unknown_command

-- `interpreter` up to the call; more than three words only for `set` and `if`, before line ends are
-- cut off.
unfoldable pub dispatch : List Cell → List Str → Action
dispatch m [] = bad unknown_command
dispatch m (name ∷ args) =
    if ltb 2 (length args) && (not (str_eq name (codes "set")) && not (str_eq name (codes "if")))
    then bad unknown_command
    else by_name m (strip name) (map strip args)
