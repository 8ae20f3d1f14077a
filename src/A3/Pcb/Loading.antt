-- ===== src/A3/Pcb/Loading.antt =====
-- Reading a page into a frame, and what freeing a page takes from its neighbour (a3/pcb.c).
use comp310_w.Prelude.{
  ℕ, zero, suc, ◌+◌, ◌≤◌, ◌<◌, ◌≡◌, refl, ◌∙◌, ◌≢◌, ◌⊎◌, some, List, [], ◌∷◌, Str, arith, length,
  set, get_or-set_self, get_or-set_ne, length-set, inl, inr,
}
use comp310_w.Prelude.Stream.{Stream, fgets, c_string}
use comp310_w.A3.Memory.{Cell, Frame, cell, blank, at, frame_alloc, free_from, mem_free_at}
use comp310_w.A3.Memory.Alloc.{frame_alloc-Allocated}
use comp310_w.A3.Pcb.{Page, Reading, put_line, read_lines, load_page, free_page}

module _ (F V : ℕ) (pid : Str) (page : Page) (m : List Cell) (f : Frame) where
  -- What `load_PAGE` leaves of three lines.
  pub record Filled (a b c : Str) (fp : Stream) (r : Reading) : Type 0 where
    pub start : ℕ
    pub index : r.page.index ≡ start ∷ (start + 1) ∷ (start + 2) ∷ []
    pub valid_bit : r.page.valid_bit ≡ 1 ∷ 1 ∷ 1 ∷ []
    pub page_index : r.page.page_index ≡ page.page_index
    pub page_pid : r.page.page_pid ≡ page.page_pid
    pub source_file : r.source_file ≡ fp
    pub size : length r.memory ≡ length m
    pub first : at r.memory start ≡ cell pid (c_string a)
    pub second : at r.memory (start + 1) ≡ cell pid (c_string b)
    pub third : at r.memory (start + 2) ≡ cell pid (c_string c)
    pub other : (j : ℕ) → j ≢ start → j ≢ start + 1 → j ≢ start + 2 → at r.memory j ≡ at m j

  -- The three rounds of the loop.
  load_page-lines :
      (s : ℕ) (fp fp1 fp2 fp3 : Stream) (a b c : Str)
      → frame_alloc F V pid m ≡ some f
      → f.index ≡ s ∷ (s + 1) ∷ (s + 2) ∷ []
      → f.valid_bit ≡ 0 ∷ 0 ∷ 0 ∷ []
      → fgets 999 fp ≡ (some a, fp1)
      → fgets 999 fp1 ≡ (some b, fp2)
      → fgets 999 fp2 ≡ (some c, fp3)
      → load_page F V pid page fp m
        ≡ some (record {
          memory =
              set
                (set (set f.memory s (cell pid (c_string a))) (s + 1) (cell pid (c_string b)))
                (s + 2)
                (cell pid (c_string c));
          page = record page { index = s ∷ (s + 1) ∷ (s + 2) ∷ []; valid_bit = 1 ∷ 1 ∷ 1 ∷ [] };
          source_file = fp3;
        })
  unfolding load_page read_lines put_line
  load_page-lines s fp fp1 fp2 fp3 a b c given ei ev e1 e2 e3 =
      ground (arith, given, ei, ev, e1, e2, e3)

  -- With a frame to give out and three more lines in the file, `load_PAGE` puts the lines into the
  -- lines of the frame, under the process's number, gives the page these three lines and sets its valid
  -- bits, and the file goes on behind the lines. The page keeps its index and its owner, and all other
  -- lines of the memory stay.
  pub load_page-Filled :
      (fp fp1 fp2 fp3 : Stream) (a b c : Str)
      → F ≤ length m
      → frame_alloc F V pid m ≡ some f
      → fgets 999 fp ≡ (some a, fp1)
      → fgets 999 fp1 ≡ (some b, fp2)
      → fgets 999 fp2 ≡ (some c, fp3)
      → (r : Reading) × (load_page F V pid page fp m ≡ some r) × Filled a b c fp3 r
  load_page-Filled fp fp1 fp2 fp3 a b c room given e1 e2 e3 =
      let al = frame_alloc-Allocated F V pid m f room given in
      let s = al.start in
      let m1 = set f.memory s (cell pid (c_string a)) in
      let m2 = set m1 (s + 1) (cell pid (c_string b)) in
      let m3 = set m2 (s + 2) (cell pid (c_string c)) in
      let l1 : length m1 ≡ length m = length-set f.memory s _ ∙ al.size in
      let l2 : length m2 ≡ length m = length-set m1 (s + 1) _ ∙ l1 in
      let r : Reading = record {
        memory = m3;
        page = record page { index = s ∷ (s + 1) ∷ (s + 2) ∷ []; valid_bit = 1 ∷ 1 ∷ 1 ∷ [] };
        source_file = fp3;
      } in
      (
        r,
        load_page-lines s fp fp1 fp2 fp3 a b c given (al.index) (al.valid_bit) e1 e2 e3,
        record {
          start = s;
          index = refl;
          valid_bit = refl;
          page_index = refl;
          page_pid = refl;
          source_file = refl;
          size = length-set m2 (s + 2) _ ∙ l2;
          first =
              get_or-set_ne m2 (s + 2) s _ blank (λ e. omega arith)
              ∙ get_or-set_ne m1 (s + 1) s _ blank (λ e. omega arith)
              ∙ get_or-set_self f.memory s _ blank (omega (arith, al.size, al.free.2));
          second =
              get_or-set_ne m2 (s + 2) (s + 1) _ blank (λ e. omega arith)
              ∙ get_or-set_self m1 (s + 1) _ blank (omega (arith, l1, al.free.2));
          third = get_or-set_self m2 (s + 2) _ blank (omega (arith, l2, al.free.2));
          other = λ j n0 n1 n2.
              get_or-set_ne m2 (s + 2) j _ blank (λ e. n2 (omega arith))
              ∙ get_or-set_ne m1 (s + 1) j _ blank (λ e. n1 (omega arith))
              ∙ get_or-set_ne f.memory s j _ blank (λ e. n0 (omega arith))
              ∙ al.other j (beside j s n0 n1 n2);
        },
      )
    where
      beside : (j s : ℕ) → j ≢ s → j ≢ s + 1 → j ≢ s + 2 → (j < s) ⊎ (s + 3 ≤ j)
      beside j s a b c = ground arith

-- A free line stays free where lines are cleared, and a cleared line is free.
clear-clear :
    (m : List Cell) (i j : ℕ) → (i ≡ j) ⊎ (at m j ≡ blank) → at (mem_free_at i m) j ≡ blank
clear-clear [] i j h = refl
clear-clear (c ∷ m) zero zero h = refl
clear-clear (c ∷ m) zero (suc j) (inl e) = absurd (omega arith)
clear-clear (c ∷ m) zero (suc j) (inr e) = e
clear-clear (c ∷ m) (suc i) zero (inl e) = absurd (omega arith)
clear-clear (c ∷ m) (suc i) zero (inr e) = e
clear-clear (c ∷ m) (suc i) (suc j) (inl e) = clear-clear m i j (inl (omega arith))
clear-clear (c ∷ m) (suc i) (suc j) (inr e) = clear-clear m i j (inr e)

-- `free_PCB` clears three lines from each of the three lines of a page on, so that the two lines
-- behind the page are cleared as well, whoever owns them.
pub free_page-behind :
    (m : List Cell) (page : Page) (s : ℕ)
    → page.index ≡ s ∷ (s + 1) ∷ (s + 2) ∷ []
    → (at (free_page page m) (s + 3) ≡ blank) × (at (free_page page m) (s + 4) ≡ blank)
unfolding free_page free_from
free_page-behind m page s e = rw e (
  clear-clear _ (s + 2 + 1 + 1) (s + 3)
      (inr (clear-clear _ (s + 2 + 1) (s + 3) (inl (omega arith)))),
  clear-clear _ (s + 2 + 1 + 1) (s + 4) (inl (omega arith)),
)
