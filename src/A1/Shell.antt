-- ===== src/A1/Shell.antt =====
-- Reading a line of the first shell (`parseInput` of a1/shell.c): the words that go to the
-- interpreter.
pub mod Words
use comp310_w.Prelude.{
  ℕ, zero, suc, ◌==◌, if◌then◌else◌, ◌||◌, Bool, true, false, Option, none, some, List, [], ◌∷◌,
  map, Str,
}
use mathlib.Core.Option
use comp310_w.Prelude.Span.{take_until, drop_until, skip_spaces, behind, null_string}

-- The bytes that end a word.
abbrev pub ends_word : ℕ → Bool
ends_word c = (c == b';') || (c == 10) || (c == b' ')

-- The loop ends at a newline and at the end of the string.
abbrev pub at_end : Str → Bool
at_end [] = true
at_end (c ∷ s) = c == 10

-- The main loop on what is left of the line, which ends before its 1000th byte; a word may be
-- empty. `none` means that the fuel ran out.
unfoldable pub parse_words : ℕ → Str → Option (List Str)
parse_words zero ui = none
parse_words (suc k) ui =
    let tmp = take_until ends_word ui in
    let ui' = drop_until ends_word ui in
    let rest = parse_words k (behind ui') in
    if at_end ui
    then some []
    else if null_string ui'
    then some (tmp ∷ [])
    else Option.map (λ words. tmp ∷ words) rest

-- `parseInput` up to the call of the interpreter.
unfoldable pub parse_input : ℕ → Str → Option (List Str)
parse_input fuel ui = parse_words fuel (skip_spaces ui)
