-- ===== src/A2/Loader/Fault.antt =====
-- Page faults (`load_frame` and `remove_frame` of a2/shellmemory.c): with no free frame, taking out
-- a victim makes room for the page.
use comp310_w.Prelude.{
  ℕ, ◌+◌, ◌*◌, ◌≤◌, ◌≡◌, refl, true, false, Option, some, List, Str, arith, length, Option-cases,
  inl, inr, set, length-set, if_true, ltb, ◌<◌, ◌⊎◌, false,
}
use mathlib.Core.Path.{subst}
use comp310_w.Prelude.Int.{pred_int}
use comp310_w.Prelude.Stream.{Stream, opened}
use comp310_w.A2.Pcb.{Pcb}
use comp310_w.A2.Memory.{Memory, frame_size, free_frame, find_replacement_slot, has_literal}
use comp310_w.A2.Memory.Frames.{find_available_slot-some}
use comp310_w.A2.Memory.Freeing.{
  Owned, mem_free_lines_between-free_frame, mem_free_lines_between-none,
  find_replacement_slot-below,
}
use comp310_w.A2.Loader.{
  loaded, no_space, removed, aborted, skip_lines, mark_page, victim_lines, fill_frame, load_frame,
  remove_frame,
}

module _ (F V : ℕ) (files : Str → Option Str) (pcb : Pcb) (m : Memory) where
  -- How `load_frame` comes to report that there is no space.
  record NoSpace : Type 0 where
    filename : Str
    content : Str
    fp : Stream
    named : pcb.filename ≡ some filename
    there : files filename ≡ some content
    skipped : skip_lines F V (pcb.page_counter * frame_size) (opened content) ≡ some fp
    more : fp.eof ≡ false

  no_space-NoSpace : load_frame F V files pcb m ≡ no_space → NoSpace
  unfolding load_frame
  no_space-NoSpace h = elim (Option-cases (pcb.filename)) [
    | inl e ↦ absurd (ground arith)
    | inr (name, e) ↦ elim (Option-cases (files name)) [
      | inl f ↦ absurd (ground arith)
      | inr (content, f) ↦
          elim (Option-cases (skip_lines F V (pcb.page_counter * frame_size) (opened content))) [
            | inl g ↦ absurd (ground arith)
            | inr (fp, g) ↦ record {
              filename = name;
              content = content;
              fp = fp;
              named = e;
              there = f;
              skipped = g;
              more = ground arith;
            }
          ]
    ]
  ]

  -- With at least two variables, and the memory as long as both stores: if `load_frame` finds no free
  -- frame for a further page, the table of pages has room for it, and a victim is found all of whose
  -- three lines have strings of their own, then `remove_frame` takes the victim out, and `load_frame`
  -- on what it leaves loads the page and counts it.
  pub load_frame-remove_frame :
      (i : ℕ)
      → 2 ≤ V
      → F + V ≤ length m.cells
      → pcb.page_counter < length pcb.page_table
      → load_frame F V files pcb m ≡ no_space
      → find_replacement_slot F V m ≡ some i
      → Owned F V m i
      → (out : List Str) × (m' : Memory) × (pcb' : Pcb) × (m'' : Memory) × (pcb'' : Pcb)
        × (remove_frame F V files pcb m ≡ removed out m' pcb')
        × (load_frame F V files pcb' m' ≡ loaded m'' pcb'')
        × (pcb''.page_counter ≡ pcb.page_counter + 1)
  unfolding load_frame remove_frame mark_page
  load_frame-remove_frame i vars room table fault victim owned =
      let s = no_space-NoSpace fault in
      let (j, begins, below) = find_replacement_slot-below F V m i victim in
      let (freed, cleared, empty) =
        mem_free_lines_between-free_frame F V i m (omega arith) room owned in
      let free : free_frame F V freed (frame_size * j) ≡ true =
        subst (λ x. free_frame F V freed x ≡ true) begins empty in
      let (slot, found, early) = find_available_slot-some F V freed j (omega arith) free in
      let pcb' : Pcb = record pcb { start = i; pc = i; page_table = set pcb.page_table 0 false } in
      let filled = fill_frame F V (s.filename) frame_size (s.fp) slot freed in
      let placed : Pcb = record pcb' { start = slot; pc = slot; end = pred_int (filled.1) } in
      let marked : Pcb = record placed {
        page_table = set placed.page_table placed.page_counter true;
        page_counter = placed.page_counter + 1;
      } in
      let same : length placed.page_table ≡ length pcb.page_table =
        length-set pcb.page_table 0 false in
      let fits : ltb placed.page_counter (length placed.page_table) ≡ true =
        ground (arith, table, same) in
      let mark : mark_page placed ≡ some marked = if_true _ _ fits in
      (
        victim_lines F V i m,
        freed,
        pcb',
        filled.0,
        marked,
        ground (arith, s.named, s.there, victim, cleared),
        ground (arith, s.named, s.there, s.skipped, s.more, found, mark),
        refl,
      )

  -- If the victim has a line that is free, as the frame of a page of one or two lines has, then
  -- `remove_frame` ends the program: it frees a string literal.
  remove_frame-aborted :
      (filename content : Str) (i : ℕ)
      → 2 ≤ V
      → pcb.filename ≡ some filename
      → files filename ≡ some content
      → find_replacement_slot F V m ≡ some i
      → (has_literal F V i m ≡ true)
        ⊎ (has_literal F V (i + 1) m ≡ true)
        ⊎ (has_literal F V (i + 2) m ≡ true)
      → remove_frame F V files pcb m ≡ aborted
  unfolding remove_frame
  remove_frame-aborted filename content i vars named there victim literal =
      let (j, begins, below) = find_replacement_slot-below F V m i victim in
      let ends = mem_free_lines_between-none F V i m (omega arith) literal in
      ground (arith, named, there, victim, ends)
