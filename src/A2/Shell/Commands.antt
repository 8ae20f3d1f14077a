-- ===== src/A2/Shell/Commands.antt =====
-- Which commands `parseInput` of a2/shell.c runs, and on which lines it never ends.
use comp310_w.Prelude.{
  ℕ, zero, suc, ◌+◌, ◌<◌, ◌≡◌, refl, ◌==◌, ltb, if◌then◌else◌, true, false, List, [], ◌∷◌, ◌++◌,
  Str, arith, length,
}
use comp310_w.Prelude.Int.{ℤ}
use comp310_w.Prelude.Span.{
  NoStop, skip_spaces, take_until, drop_until, take_until-append, drop_until-append,
}
use comp310_w.A2.Shell.{ends_word, is_minus_one, parse_loop, parse_input, no_fuel, returned_pair}

-- A word as the parser makes it: not empty, without a separator, and shorter than `tmp`.
abbrev pub IsWord : Str → Type 0
IsWord [] = ⊥
IsWord (c ∷ w) = NoStop ends_word (c ∷ w) × (length (c ∷ w) < 200)

abbrev pub AllWords : List Str → Type 0
AllWords [] = Unit
AllWords (w ∷ ws) = IsWord w × AllWords ws

-- The words of a command with one blank between them.
abbrev pub join : Str → List Str → Str
join w [] = w
join w (v ∷ ws) = w ++ b' ' ∷ join v ws

-- A command is a word and further words; a line has a `;` behind each command but the last.
abbrev pub Command : Type 0
Command = Str × List Str

abbrev pub line : Command → List Command → Str
line (w, ws) [] = join w ws
line (w, ws) (c ∷ cs) = join w ws ++ b';' ∷ line c cs

abbrev pub AllCommands : List Command → Type 0
AllCommands [] = Unit
AllCommands ((w, ws) ∷ cs) = (IsWord w × AllWords ws × (length ws < 100)) × AllCommands cs

-- One more than the words of the commands: the fuel that a line needs.
abbrev pub word_count : List Command → ℕ
word_count [] = 1
word_count ((w, ws) ∷ cs) = suc (length ws) + word_count cs

module _ {S : Type 0} (interpreter : List Str → S → ℤ × S) where
  -- The commands in order, until one returns -1; the value is that of the last one that ran.
  unfoldable pub run_commands : Command → List Command → S → ℤ × S
  run_commands (w, ws) [] s = interpreter (w ∷ ws) s
  run_commands (w, ws) (c ∷ cs) s =
      let called = interpreter (w ∷ ws) s in
      let rest = run_commands c cs called.1 in if is_minus_one called.0 then called else rest

  parse_loop-zero :
      (ui : Str) (words : List Str) (s : S) → parse_loop interpreter 0 ui words s ≡ no_fuel
  unfolding parse_loop
  parse_loop-zero ui words s = refl

  -- On a `;` where a word should begin `parseInput` does not move on: no fuel is enough.
  pub parse_loop-semicolon :
      (k : ℕ) (ui : Str) (words : List Str) (s : S)
      → parse_loop interpreter k (b';' ∷ ui) words s ≡ no_fuel
  unfolding parse_loop skip_spaces take_until drop_until
  parse_loop-semicolon zero ui words s = refl
  parse_loop-semicolon (suc k) ui words s = parse_loop-semicolon k ui words s

  skip_word : (w rest : Str) → IsWord w → skip_spaces (w ++ rest) ≡ w ++ rest
  unfolding skip_spaces
  skip_word [] rest h = elim h [ ]
  skip_word (c ∷ w) rest h = ground arith

  -- One turn of the loop on a word and the byte that ends it.
  parse_turn :
      (k : ℕ) (w : Str) (d : ℕ) (rest : Str) (words : List Str) (s : S)
      → IsWord w
      → length words < 100
      → ends_word d ≡ true
      → parse_loop interpreter (suc k) (w ++ d ∷ rest) words s ≡ (
          if d == b';'
          then (let called = interpreter (words ++ w ∷ []) s in
              let command = parse_loop interpreter k (skip_spaces rest) [] called.1 in
              if is_minus_one called.0 then returned_pair called else command)
          else parse_loop interpreter k rest (words ++ w ∷ []) s)
  unfolding parse_loop
  parse_turn k [] d rest words s h few e = elim h [ ]
  parse_turn k (c ∷ w) d rest words s h few e =
      let go_on : (c == 10) ≡ false = let a = h.0 in ground arith in
      let short : ltb 199 (length (c ∷ w)) ≡ false = let l = h.1 in ground arith in
      let room : ltb 99 (length words) ≡ false = ground arith in
      rw (
        go_on,
        skip_word (c ∷ w) (d ∷ rest) h,
        take_until-append ends_word (c ∷ w) d rest h.0 e,
        drop_until-append ends_word (c ∷ w) d rest h.0 e,
        short,
        room,
      )

  -- A `;` behind a blank stops the shell for good: on a line of less than 1000 bytes that begins with
  -- a word of less than 200 bytes, a blank and a `;`, the loop has no result, whatever the fuel and
  -- the rest of the line.
  pub parse_input-blank_semicolon :
      (fuel : ℕ) (w rest : Str) (s : S)
      → IsWord w
      → length (w ++ b' ' ∷ b';' ∷ rest) < 1000
      → parse_input interpreter fuel (w ++ b' ' ∷ b';' ∷ rest) s ≡ no_fuel
  unfolding parse_input
  parse_input-blank_semicolon zero w rest s h short =
      parse_loop-zero (skip_spaces (w ++ b' ' ∷ b';' ∷ rest)) [] s
  parse_input-blank_semicolon (suc k) w rest s h short =
      rw
        (
          skip_word w (b' ' ∷ b';' ∷ rest) h,
          parse_turn k w b' ' (b';' ∷ rest) [] s h (omega arith) refl,
        )
        (parse_loop-semicolon k rest (w ∷ []) s)
