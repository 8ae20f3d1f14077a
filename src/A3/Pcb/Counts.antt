-- ===== src/A3/Pcb/Counts.antt =====
-- Counting lines, pages and finished pages (a3/pcb.c).
use native.Mathlib.Decide.{ℕ_discrete}
use comp310_w.Prelude.{
  ℕ, zero, suc, ◌+◌, ◌*◌, ◌≤◌, ◌<◌, ◌≡◌, refl, ◌↔◌, ◌==◌, true, List, [], ◌∷◌, ◌++◌, Str, arith,
  length, get_or,
}
use comp310_w.Prelude.Span.{NoStop}
use mathlib.Core.List.{append_assoc}
use comp310_w.A3.Pcb.{Pcb, count_newlines, count_lines, page_table_size, done_from, pcb_done}

-- A line: at least one byte, and no newline.
abbrev pub IsLine : Str → Type 0
IsLine [] = ⊥
IsLine (c ∷ s) = NoStop (λ x. x == 10) (c ∷ s)

abbrev pub AllLines : List Str → Type 0
AllLines [] = Unit
AllLines (l ∷ ls) = IsLine l × AllLines ls

-- Lines, each with its newline.
abbrev pub text : List Str → Str
text [] = []
text (l ∷ ls) = l ++ 10 ∷ text ls

count_newlines-line :
    (c : ℕ) (l rest : Str)
    → NoStop (λ x. x == 10) (c ∷ l)
    → count_newlines c (l ++ 10 ∷ rest) ≡ count_newlines 10 rest + 1
unfolding count_newlines
count_newlines-line c [] rest h = ground arith
count_newlines-line c (d ∷ l) rest h = ground (arith, count_newlines-line d l rest h.1)

count_newlines-last : (c : ℕ) (l : Str) → NoStop (λ x. x == 10) l → count_newlines c l ≡ 0
unfolding count_newlines
count_newlines-last c [] h = refl
count_newlines-last c (d ∷ l) h = ground (arith, count_newlines-last d l h.1)

count_newlines-text :
    (ls : List Str) (last : Str)
    → AllLines ls
    → NoStop (λ x. x == 10) last
    → count_newlines 10 (text ls ++ last) ≡ length ls
unfolding count_newlines
count_newlines-text [] last h k = count_newlines-last 10 last k
count_newlines-text ([] ∷ ls) last h k = elim (h.0) [ ]
count_newlines-text ((c ∷ l) ∷ ls) last h k = rw (append_assoc l (10 ∷ text ls) last) (
    ground
      (arith, count_newlines-line c l (text ls ++ last) (h.0), count_newlines-text ls last h.1 k))

-- On lines that are not empty, each with its newline, and a last one without, `count_lines` counts
-- all of them; and it counts the last one also if it is empty, that is if the file ends with a
-- newline.
pub count_lines-text :
    (ls : List Str) (last : Str)
    → AllLines ls
    → NoStop (λ x. x == 10) last
    → count_lines (text ls ++ last) ≡ length ls + 1
unfolding count_lines
count_lines-text ls last h k = rw (count_newlines-text ls last h k)

-- `PAGE_table_size` gives the least number of pages of three lines that hold the lines.
pub page_table_size-least :
    (lines : ℕ)
    → (lines ≤ 3 * page_table_size lines) × ((k : ℕ) → lines ≤ 3 * k → page_table_size lines ≤ k)
unfolding page_table_size
page_table_size-least lines = (ground arith, λ k h. ground arith)

done_from-all :
    (counters : List ℕ) (i n : ℕ)
    → done_from counters i n ≡ true
    → (k : ℕ) → i ≤ k
    → k < i + n
    → get_or counters k 0 ≡ 3
unfolding done_from
done_from-all counters i zero h k low high = absurd (omega arith)
done_from-all counters i (suc n) h k low high = elim (ℕ_discrete k i) [
  | yes e ↦ rw e (ground arith)
  | no ne ↦ done_from-all counters (i + 1) n (ground arith) k (omega arith) (omega arith)
]

all-done_from :
    (counters : List ℕ) (i n : ℕ)
    → ((k : ℕ) → i ≤ k → k < i + n → get_or counters k 0 ≡ 3)
    → done_from counters i n ≡ true
unfolding done_from
all-done_from counters i zero h = refl
all-done_from counters i (suc n) h = ground (
  arith,
  h i (omega arith) (omega arith),
  all-done_from counters (i + 1) n (λ k low high. h k (omega arith) (omega arith)),
)

-- `PCB_done` holds exactly when the program counter of every page is 3.
pub pcb_done_iff :
    (pcb : Pcb)
    → (pcb_done pcb ≡ true)
      ↔ ((k : ℕ) → k < pcb.page_table_size → get_or pcb.program_counter k 0 ≡ 3)
unfolding pcb_done
pcb_done_iff pcb = (
  λ h k less.
      done_from-all pcb.program_counter 0 pcb.page_table_size h k (omega arith) (omega arith),
  λ h. all-done_from pcb.program_counter 0 pcb.page_table_size (λ k low high. h k (omega arith)),
)
