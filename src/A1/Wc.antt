-- ===== src/A1/Wc.antt =====
-- The counting of lines, words and bytes (`my_wc` of a1/interpreter.c).
pub mod Words
use comp310_w.Prelude.{
  ℕ, ◌+◌, ◌==◌, if◌then◌else◌, ◌||◌, Bool, true, false, Option, none, some, List, [], ◌∷◌, Str,
}

-- The counters `lines`, `words` and `characters`.
pub record Counts : Type 0 where
  pub lines : ℕ
  pub words : ℕ
  pub characters : ℕ

abbrev pub space : ℕ → Bool
space c = (c == b' ') || (c == 9) || (c == 10)

-- The loop over the bytes of the file, with `inWord` and the counters.
unfoldable pub count_from : Bool → Counts → Str → Counts
count_from in_word n [] = n
count_from in_word n (c ∷ s) =
    let lines = if c == 10 then n.lines + 1 else n.lines in
    let characters = n.characters + 1 in
    let between =
      count_from false (record { lines = lines; words = n.words; characters = characters }) s in
    let inside =
      count_from true (record { lines = lines; words = n.words; characters = characters }) s in
    let begun =
      count_from true (record { lines = lines; words = n.words + 1; characters = characters }) s in
    if space c then between else if in_word then inside else begun

-- `my_wc` on what `fopen` finds: the code that it returns, and the counts that it prints.
unfoldable pub my_wc : Option Str → ℕ × Option Counts
my_wc file = elim file [
  | none ↦ (7, none)
  | some content ↦
      (0, some (count_from false (record { lines = 0; words = 0; characters = 0 }) content))
]
