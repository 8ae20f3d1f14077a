-- ===== src/A1/Tests.antt =====
-- The theorems about the first assignment at concrete memories and texts.
use comp310_w.Prelude.{
  ℕ, List, [], ◌∷◌, ◌≡◌, refl, some, Str, codes, str_eq, arith, length, length-replicate,
}
use comp310_w.Prelude.Table.{find_key}
use comp310_w.Prelude.Scan.{first_from}
use comp310_w.A1.Memory.{blank, memory_size, mem_init}
use comp310_w.A1.Shell.{parse_input}
use comp310_w.A1.Shell.Words.{line, words_of, parse_input-words_of}
use comp310_w.A1.Memory.Laws.{HasRoom}

mem_init-size : length mem_init ≡ memory_size
unfolding mem_init
mem_init-size = length-replicate memory_size blank

mem_init-HasRoom : HasRoom mem_init (codes "x")
unfolding mem_init find_key first_from str_eq
mem_init-HasRoom _ e = absurd (ground arith)

-- `set x 1;print x` and a newline: the semicolon does not end a command.
abbrev typed : List (Str × ℕ)
typed =
    (codes "set", b' ')
    ∷ (codes "x", b' ')
    ∷ (codes "1", b';')
    ∷ (codes "print", b' ')
    ∷ (codes "x", 10)
    ∷ []

typed_words : parse_input 6 (line typed) ≡ some (words_of typed)
typed_words =
    parse_input-words_of typed 6
      (search, refl, (search, refl, (search, refl, (search, refl, (search, refl, tt)))))
      (omega arith)
