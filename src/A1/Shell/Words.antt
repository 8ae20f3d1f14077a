-- ===== src/A1/Shell/Words.antt =====
-- The words that `parseInput` of a1/shell.c finds.
use comp310_w.Prelude.{
  ℕ, zero, suc, ◌<◌, ◌≡◌, refl, ◌==◌, true, false, some, List, [], ◌∷◌, ◌++◌, Str, arith, length,
}
use comp310_w.Prelude.Span.{NoStop, skip_spaces, take_until-append, drop_until-append}
use comp310_w.A1.Shell.{ends_word, parse_words, parse_input}

-- A word that is not empty and has no separator.
abbrev pub IsWord : Str → Type 0
IsWord [] = ⊥
IsWord (c ∷ w) = NoStop ends_word (c ∷ w)

abbrev pub AllWords : List Str → Type 0
AllWords [] = Unit
AllWords (w ∷ ws) = IsWord w × AllWords ws

-- A line: words with one separator behind each, of the kind that the list says.
abbrev pub IsLine : List (Str × ℕ) → Type 0
IsLine [] = Unit
IsLine ((w, d) ∷ ws) = IsWord w × (ends_word d ≡ true) × IsLine ws

abbrev pub line : List (Str × ℕ) → Str
line [] = []
line ((w, d) ∷ ws) = w ++ d ∷ line ws

abbrev pub words_of : List (Str × ℕ) → List Str
words_of [] = []
words_of ((w, d) ∷ ws) = w ∷ words_of ws

parse_words-line :
    (ws : List (Str × ℕ)) (fuel : ℕ)
    → IsLine ws
    → length ws < fuel
    → parse_words fuel (line ws) ≡ some (words_of ws)
unfolding parse_words
parse_words-line ws zero h enough = absurd (omega arith)
parse_words-line [] (suc fuel) h enough = refl
parse_words-line (([], d) ∷ ws) (suc fuel) h enough = elim (h.0) [ ]
parse_words-line ((c ∷ w, d) ∷ ws) (suc fuel) h enough =
    let go_on : (c == 10) ≡ false = ground (arith, h.0) in
    rw (
      go_on,
      take_until-append ends_word (c ∷ w) d (line ws) (h.0) (h.1),
      drop_until-append ends_word (c ∷ w) d (line ws) (h.0) (h.1),
      parse_words-line ws fuel h.2 (omega arith),
    )

skip_line : (ws : List (Str × ℕ)) → IsLine ws → skip_spaces (line ws) ≡ line ws
unfolding skip_spaces
skip_line [] h = refl
skip_line (([], d) ∷ ws) h = elim (h.0) [ ]
skip_line ((c ∷ w, d) ∷ ws) h = ground (arith, h.0)

-- On words that are each followed by one separator, be it a blank, a semicolon or a newline,
-- `parseInput` hands the words in order to the interpreter, all in one command.
pub parse_input-words_of :
    (ws : List (Str × ℕ)) (fuel : ℕ)
    → IsLine ws
    → length ws < fuel
    → parse_input fuel (line ws) ≡ some (words_of ws)
unfolding parse_input
parse_input-words_of ws fuel h enough = rw (skip_line ws h) (parse_words-line ws fuel h enough)
