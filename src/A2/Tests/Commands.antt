-- ===== src/A2/Tests/Commands.antt =====
-- The theorems about the command line of the second assignment, with an interpreter that counts the
-- words that it is given.
use comp310_w.Prelude.{ℕ, ◌≡◌, ◌+◌, List, ◌++◌, Str, codes, arith, length}
use comp310_w.Prelude.Int.{ℤ, pos}
use comp310_w.A2.Shell.{parse_input, no_fuel}
use comp310_w.A2.Shell.Commands.{parse_input-blank_semicolon}

abbrev counting : List Str → ℕ → ℤ × ℕ
counting words n = (pos 0, n + length words)

parse_input-blank_semicolon_example :
    parse_input counting 100 (codes "help" ++ codes " ;quit") 0 ≡ no_fuel
parse_input-blank_semicolon_example =
    parse_input-blank_semicolon counting 100 (codes "help") (codes "quit") 0 (search, omega arith)
      (omega arith)
