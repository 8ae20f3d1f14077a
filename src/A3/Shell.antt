-- ===== src/A3/Shell.antt =====
-- Reading a line of commands (`parseInput` of a3/shell.c), which `strtok` splits at each `;`.
pub mod Words
pub mod Lines
mod Tests
use comp310_w.Prelude.{
  ℕ, zero, suc, ◌==◌, ltb, if◌then◌else◌, Bool, true, false, Option, none, some, List, [], ◌∷◌,
  ◌++◌, length, Str,
}
use comp310_w.Prelude.Int.{ℤ, pos, negsuc}
use comp310_w.Prelude.Span.{take_until, drop_until, skip_spaces, behind, null_string}

abbrev pub is_minus_one : ℤ → Bool
is_minus_one (pos n) = false
is_minus_one (negsuc zero) = true
is_minus_one (negsuc (suc n)) = false

abbrev pub semicolon : ℕ → Bool
semicolon c = c == b';'

unfoldable pub skip_semicolons : Str → Str
skip_semicolons [] = []
skip_semicolons (c ∷ s) = let rest = skip_semicolons s in if c == b';' then rest else c ∷ s

-- `strtok(s, ";")` gives a word or the null pointer, and keeps the string behind it for `strtok(NULL, ";")`.
unfoldable pub strtok : Str → Option Str × Str
strtok s =
    let s1 = skip_semicolons s in
    if null_string s1
    then (none, [])
    else (some (take_until semicolon s1), behind (drop_until semicolon s1))

-- The words of a token, behind the word that has begun: one ends at a blank or with the token, and
-- a blank at the end begins no word.
unfoldable pub words_from : Str → Str → List Str
words_from tmp [] = tmp ∷ []
words_from tmp (c ∷ token) =
    let next = words_from [] token in
    let longer = words_from (tmp ++ c ∷ []) token in
    if c == b' ' then tmp ∷ (if null_string token then [] else next) else longer

unfoldable pub words_of : Str → List Str
words_of token =
    let token1 = skip_spaces token in if null_string token1 then [] else words_from [] token1

-- The string that `strtok` keeps for the whole program, and the rest of the program's state.
pub record Program (T : Type 0) : Type 0 where
  pub saved : Str
  pub rest : T

-- `parseInput` returns, writes behind the array `words`, or is out of fuel.
pub data Parsed (T : Type 0) : Type 0 where
  returned : ℤ → Program T → Parsed T
  overflow : Parsed T
  no_fuel : Parsed T

module _ {T : Type 0} (interpreter : List Str → Program T → ℤ × Program T) where
  -- The loop over the tokens, with the last code. A line is shorter than 1000 bytes.
  unfoldable pub parse_tokens : ℕ → Option Str → ℤ → Program T → Parsed T
  parse_tokens zero tokens ret s = no_fuel
  parse_tokens (suc k) none ret s = returned ret s
  parse_tokens (suc k) (some token) ret s =
      let words = words_of token in
      let called = interpreter words s in
      let next = strtok called.1.saved in
      let s2 = record called.1 { saved = next.1 } in
      let further = parse_tokens k next.0 called.0 s2 in
      if ltb 100 (length words)
      then overflow
      else if is_minus_one called.0
      then returned called.0 s2
      else further

  unfoldable pub parse_input : ℕ → Str → Program T → Parsed T
  parse_input fuel ui s =
      let first = strtok ui in parse_tokens fuel first.0 (pos 0) (record s { saved = first.1 })
