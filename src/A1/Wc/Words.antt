-- ===== src/A1/Wc/Words.antt =====
-- What the counters of `my_wc` of a1/interpreter.c stand for.
use comp310_w.Prelude.{
  ℕ, ◌+◌, ◌≡◌, refl, ap, ◌∙◌, ◌==◌, if◌then◌else◌, true, false, some, List, [], ◌∷◌, ◌++◌, Str,
  arith, length, length-append,
}
use comp310_w.Prelude.Span.{NoStop}
use comp310_w.A1.Wc.{Counts, space, count_from, my_wc}

-- Words, each with the white space behind it, of at least one byte in all.
abbrev pub AreWords : List (Str × ℕ) → Type 0
AreWords [] = Unit
AreWords (([], d) ∷ ws) = ⊥
AreWords ((c ∷ w, d) ∷ ws) = NoStop space (c ∷ w) × (space d ≡ true) × AreWords ws

abbrev pub text : List (Str × ℕ) → Str
text [] = []
text ((w, d) ∷ ws) = w ++ d ∷ text ws

-- How often a newline stands behind a word.
abbrev pub newlines : List (Str × ℕ) → ℕ
newlines [] = 0
newlines ((w, d) ∷ ws) = (if d == 10 then 1 else 0) + newlines ws

counts : ℕ → ℕ → ℕ → Counts
counts l w c = record { lines = l; words = w; characters = c }

same_counts : {l l' w w' n n' : ℕ} → l ≡ l' → w ≡ w' → n ≡ n' → counts l w n ≡ counts l' w' n'
same_counts a b c = rw (a, b, c)

-- A newline counts as a line.
line_of : (l d : ℕ) → (if d == 10 then l + 1 else l) ≡ l + (if d == 10 then 1 else 0)
line_of l d = ground arith

not_newline : (c : ℕ) → space c ≡ false → (c == 10) ≡ false
not_newline c h = ground arith

-- The rest of a word, and the white space behind it.
count_from-word :
    (l w n : ℕ) (v : Str) (d : ℕ) (rest : Str)
    → NoStop space v
    → space d ≡ true
    → count_from true (counts l w n) (v ++ d ∷ rest)
      ≡ count_from false (counts (l + (if d == 10 then 1 else 0)) w (n + length v + 1)) rest
unfolding count_from counts
count_from-word l w n [] d rest h e =
    rw e (ap (λ m. count_from false m rest) (same_counts (line_of l d) refl (omega arith)))
count_from-word l w n (c ∷ v) d rest h e =
    rw (h.0, not_newline c (h.0))
      (count_from-word l w (n + 1) v d rest h.1 e
        ∙ ap (λ m. count_from false m rest) (same_counts refl refl (omega arith)))

count_from-text :
    (ws : List (Str × ℕ)) (l w n : ℕ)
    → AreWords ws
    → count_from false (counts l w n) (text ws)
      ≡ counts (l + newlines ws) (w + length ws) (n + length (text ws))
unfolding count_from counts
count_from-text [] l w n h = same_counts (omega arith) (omega arith) (omega arith)
count_from-text (([], d) ∷ ws) l w n h = elim h [ ]
count_from-text ((c ∷ v, d) ∷ ws) l w n h =
    rw (h.0.0, not_newline c (h.0.0))
      (count_from-word l (w + 1) (n + 1) v d (text ws) (h.0.1) (h.1)
        ∙ count_from-text ws _ _ _ h.2
        ∙ same_counts (omega arith) (omega arith) (omega (arith, length-append v (d ∷ text ws))))

-- On words that are each followed by one byte of white space, `my_wc` returns 0 and prints the
-- number of newlines, of words, and of bytes.
pub my_wc-text :
    (ws : List (Str × ℕ))
    → AreWords ws
    → my_wc (some (text ws))
      ≡ (0, some (record { lines = newlines ws; words = length ws; characters = length (text ws) }))
unfolding my_wc counts
my_wc-text ws h =
    ap (λ m. (0, some m))
      (count_from-text ws 0 0 0 h ∙ same_counts (omega arith) (omega arith) (omega arith))
