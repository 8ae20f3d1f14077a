-- ===== src/A2/Memory/Freeing.antt =====
-- Freeing a frame, and where victims stand (`mem_free_lines_between` and `find_replacement_slot` of
-- a2/shellmemory.c).
use mathlib.Core.Bool.{false≢true}
use comp310_w.Prelude.{
  ℕ, ◌+◌, ◌-◌, ◌*◌, ◌≤◌, ◌<◌, ◌≡◌, refl, sym, ap, ◌∙◌, ◌≢◌, ◌||◌, if_false, if◌then◌else◌, Bool,
  ◌⊎◌, inl, inr, min, true, false, Option, none, some, arith, length, length-set, get_or-set_self,
  get_or-set_ne, str_eq_refl,
}
use comp310_w.A2.Memory.{
  Memory, PagePolicy, fifo, lru, blank, unset, at, frame_size, frames, Cell, has_literal, free_line,
  free_lines, mem_free_lines_between, free_frame, find_replacement_slot, find_lru_slot,
  find_fifo_slot,
}
use comp310_w.A2.Memory.Frames.{Least, find_lru_slot-Least, find_fifo_slot-Least}

-- The three lines of a frame have strings of their own, or one of them is the literal.
abbrev pub Owned : ℕ → ℕ → Memory → ℕ → Type 0
Owned F V m i =
    (has_literal F V i m ≡ false)
    × (has_literal F V (i + 1) m ≡ false)
    × (has_literal F V (i + 2) m ≡ false)

module _ (F V : ℕ) where
  -- The cells of a frame one after the other.
  abbrev one : ℕ → Memory → Memory
  one i m = free_line F V i m

  abbrev freed_frame : ℕ → Memory → Memory
  freed_frame i m = one (i + 1 + 1) (one (i + 1) (one i m))

  three_lines : (i : ℕ) → i + 2 < F + V → min (i + frame_size - 1 + 1) (F + V) - i ≡ 3
  three_lines i inside = omega arith

  literal_other : (i j : ℕ) (m : Memory) → i ≢ j → has_literal F V j (one i m) ≡ has_literal F V j m
  literal_other i j m ne =
      ap (λ (c : Cell). c.literal_var || c.literal_value) (get_or-set_ne m.cells i j _ blank ne)

  frame_lines :
      (i : ℕ) (m : Memory)
      → i + 2 < F + V
      → Owned F V m i
      → mem_free_lines_between F V i (i + frame_size - 1) m ≡ some (freed_frame i m)
  unfolding mem_free_lines_between free_lines
  frame_lines i m inside (a, b, c) =
      let three = three_lines i inside in
      let place : i + 1 + 1 ≡ i + 2 = omega arith in
      let b' : has_literal F V (i + 1) (one i m) ≡ false =
        literal_other i (i + 1) m (λ e. omega arith) ∙ b in
      let c' : has_literal F V (i + 1 + 1) (one (i + 1) (one i m)) ≡ false =
        literal_other (i + 1) (i + 1 + 1) (one i m) (λ e. omega arith)
        ∙ literal_other i (i + 1 + 1) m (λ e. omega arith)
        ∙ ap (λ k. has_literal F V k m) place
        ∙ c in
      ap (λ n. free_lines F V i n m) three ∙ if_false _ _ a ∙ if_false _ _ b' ∙ if_false _ _ c'

  at_self : (i : ℕ) (m : Memory) → i < length m.cells → (at (one i m) i).var ≡ unset
  at_self i m h = ap (λ (c : Cell). c.var) (get_or-set_self m.cells i _ blank h)

  at_other : (i j : ℕ) (m : Memory) → i ≢ j → (at (one i m) j).var ≡ (at m j).var
  at_other i j m ne = ap (λ (c : Cell). c.var) (get_or-set_ne m.cells i j _ blank ne)

  -- Behind `mem_free_lines_between` of a frame inside the array, whose lines have strings of their
  -- own, the frame is free.
  pub mem_free_lines_between-free_frame :
      (i : ℕ) (m : Memory)
      → i + 2 < F + V
      → F + V ≤ length m.cells
      → Owned F V m i
      → (m' : Memory) × (mem_free_lines_between F V i (i + frame_size - 1) m ≡ some m')
        × (free_frame F V m' i ≡ true)
  unfolding free_frame
  mem_free_lines_between-free_frame i m inside room owned =
      let m1 = one i m in
      let m2 = one (i + 1) m1 in
      let l1 : length m1.cells ≡ length m.cells = length-set m.cells i _ in
      let l2 : length m2.cells ≡ length m.cells = length-set m1.cells (i + 1) _ ∙ l1 in
      let place : i + 1 + 1 ≡ i + 2 = omega arith in
      let first : (at (freed_frame i m) i).var ≡ unset =
        at_other (i + 1 + 1) i m2 (λ e. omega arith)
        ∙ at_other (i + 1) i m1 (λ e. omega arith)
        ∙ at_self i m (omega arith) in
      let second : (at (freed_frame i m) (i + 1)).var ≡ unset =
        at_other (i + 1 + 1) (i + 1) m2 (λ e. omega arith)
        ∙ at_self (i + 1) m1 (omega (arith, l1)) in
      let third : (at (freed_frame i m) (i + 2)).var ≡ unset =
        ap (λ k. (at (freed_frame i m) k).var) (sym place)
        ∙ at_self (i + 1 + 1) m2 (omega (arith, l2)) in
      (
        freed_frame i m,
        frame_lines i m inside owned,
        rw (first, second, third, str_eq_refl unset) refl,
      )

  -- If one of the lines has the literal, `free` ends the program.
  pub mem_free_lines_between-none :
      (i : ℕ) (m : Memory)
      → i + 2 < F + V
      → (has_literal F V i m ≡ true)
        ⊎ (has_literal F V (i + 1) m ≡ true)
        ⊎ (has_literal F V (i + 2) m ≡ true)
      → mem_free_lines_between F V i (i + frame_size - 1) m ≡ none
  unfolding mem_free_lines_between free_lines
  mem_free_lines_between-none i m inside literal =
      let three = three_lines i inside in
      let place : i + 1 + 1 ≡ i + 2 = omega arith in
      let b' : has_literal F V (i + 1) (one i m) ≡ has_literal F V (i + 1) m =
        literal_other i (i + 1) m (λ e. omega arith) in
      let c' : has_literal F V (i + 1 + 1) (one (i + 1) (one i m)) ≡ has_literal F V (i + 2) m =
        literal_other (i + 1) (i + 1 + 1) (one i m) (λ e. omega arith)
        ∙ literal_other i (i + 1 + 1) m (λ e. omega arith)
        ∙ ap (λ k. has_literal F V k m) place in
      ap (λ n. free_lines F V i n m) three ∙ rw (b', c') (go _ _ _ _ literal)
    where
      go :
          (a b c : Bool) (x : Option Memory)
          → (a ≡ true) ⊎ (b ≡ true) ⊎ (c ≡ true)
          → (if a then none else if b then none else if c then none else x) ≡ none
      go true b c x h = refl
      go false true c x h = refl
      go false false true x h = refl
      go false false false x h = elim h [
        | inl e ↦ absurd (false≢true e)
        | inr i ↦ elim i [ inl e ↦ absurd (false≢true e) | inr e ↦ absurd (false≢true e) ]
      ]

  -- A victim begins below the threshold, at a multiple of the size of a frame.
  pub find_replacement_slot-below :
      (m : Memory) (i : ℕ)
      → find_replacement_slot F V m ≡ some i
      → (j : ℕ) × (i ≡ frame_size * j) × (i < F)
  unfolding find_replacement_slot
  find_replacement_slot-below m i h = go (m.current_policy) h
    where
      pick :
          (time : ℕ → ℕ) (o : Option ℕ)
          → Least time (frames F V) 9999 o
          → o ≡ some i
          → (j : ℕ) × (i ≡ frame_size * j) × (i < F)
      pick time none l e = cc
      pick time (some x) (j, begins, below, early, least, first) e =
          let same : x ≡ i = ground arith in (j, omega arith, omega arith)

      go :
          (p : PagePolicy)
          → (elim p as (λ _. Option ℕ) [ lru ↦ find_lru_slot F V m | fifo ↦ find_fifo_slot F V m ])
            ≡ some i
          → (j : ℕ) × (i ≡ frame_size * j) × (i < F)
      go fifo e = pick _ (find_fifo_slot F V m) (find_fifo_slot-Least F V m) e
      go lru e = pick _ (find_lru_slot F V m) (find_lru_slot-Least F V m) e
