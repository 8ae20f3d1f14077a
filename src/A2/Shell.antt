-- ===== src/A2/Shell.antt =====
-- Reading a line of commands (`parseInput` of a2/shell.c).
pub mod Commands
use comp310_w.Prelude.{
  ℕ, zero, suc, ◌==◌, ltb, if◌then◌else◌, ◌||◌, Bool, true, false, List, [], ◌∷◌, ◌++◌, Str, length,
}
use comp310_w.Prelude.Int.{ℤ, pos, negsuc}
use comp310_w.Prelude.Span.{take_until, drop_until, skip_spaces, behind, null_string}

-- The bytes that end a word: `;`, a newline and a blank.
abbrev pub ends_word : ℕ → Bool
ends_word c = (c == b';') || (c == 10) || (c == b' ')

-- The loop ends at a newline and at the end of the string.
abbrev pub at_end : Str → Bool
at_end [] = true
at_end (c ∷ s) = c == 10

abbrev pub at_semicolon : Str → Bool
at_semicolon [] = false
at_semicolon (c ∷ s) = c == b';'

abbrev pub is_minus_one : ℤ → Bool
is_minus_one (pos n) = false
is_minus_one (negsuc zero) = true
is_minus_one (negsuc (suc n)) = false

-- `parseInput` returns, writes behind `tmp` or behind the array `words`, or is out of fuel.
pub data Parsed (S : Type 0) : Type 0 where
  returned : ℤ → S → Parsed S
  overflow : Parsed S
  no_fuel : Parsed S

abbrev pub returned_pair : {S : Type 0} → ℤ × S → Parsed S
returned_pair r = returned r.0 r.1

-- `interpreter` on the words of a command, in a state of the program.
module _ {S : Type 0} (interpreter : List Str → S → ℤ × S) where
  -- The main loop, from what is left of the line, with the words of the command so far. The line
  -- ends before its 1000th byte, so that the bounds on `a` hold throughout. A word has room for 199
  -- bytes and the null byte in `tmp`, and a command for 100 words in `words`.
  unfoldable pub parse_loop : ℕ → Str → List Str → S → Parsed S
  parse_loop zero ui words s = no_fuel
  parse_loop (suc k) ui words s =
      let ui1 = skip_spaces ui in
      let tmp = take_until ends_word ui1 in
      let ui2 = drop_until ends_word ui1 in
      let called = interpreter (words ++ tmp ∷ []) s in
      let again = parse_loop k ui2 words s in
      let command = parse_loop k (skip_spaces (behind ui2)) [] called.1 in
      let word = parse_loop k (behind ui2) (words ++ tmp ∷ []) s in
      if at_end ui
      then returned_pair (interpreter words s)
      else if null_string ui1
      then returned_pair (interpreter words s)
      else if ltb 199 (length tmp)
      then overflow
      else if null_string tmp
      then again
      else if ltb 99 (length words)
      then overflow
      else if at_semicolon ui2
      then (if is_minus_one called.0 then returned_pair called else command)
      else word

  -- `parseInput`
  unfoldable pub parse_input : ℕ → Str → S → Parsed S
  parse_input fuel ui s = parse_loop fuel (skip_spaces ui) [] s
