-- ===== src/A3/Kernel/Pages.antt =====
-- What loading and evicting pages keeps of a process whose file has been read to its end (a3/kernel.c).
use mathlib.Core.Path.{subst}
use mathlib.Core.Option
use mathlib.Core.Option.{some-injective}
use comp310_w.Prelude.{
  ℕ, zero, suc, ◌+◌, ◌||◌, true, Option, none, some, List, [], ◌∷◌, Str, get_or, set, ◌≡◌, refl,
  sym, ◌∙◌, ap, arith, Option-cases, ◌⊎◌, inl, inr,
}
use comp310_w.Prelude.Int.{ℤ}
use comp310_w.Prelude.Stream.{Stream, fgets, take_line}
use comp310_w.A3.Memory.{Cell, Frame, frame_alloc}
use comp310_w.A3.Pcb.{
  Page, Pcb, Reading, page_init, load_page, read_lines, page_evict, evict_lines, lines_of_page,
}
use comp310_w.A3.List.{done, exited, crashed}
use comp310_w.A3.Kernel.{
  Machine, no_pcb, split_last, pcb_at, page_at, put_pcb, find_pcb, load, evict, make_present,
}
use comp310_w.A3.Kernel.Turns.{Post, Post-bind, Post-or_else}

-- The valid bit of line `c` of page `j` of a process.
abbrev pub bit : Pcb → ℕ → ℕ → ℕ
bit a j c = get_or (get_or a.page_table j (page_init 0 0)).valid_bit c 0

abbrev pub AtEnd : Pcb → Type 0
AtEnd a = a.source_file.rest ≡ []

-- A process stays at its line: if its file has ended, no line becomes valid.
pub record Keeps (a b : Pcb) : Type 0 where
  pub size : b.size ≡ a.size
  pub counters : b.program_counter ≡ a.program_counter
  pub pages : b.page_table_size ≡ a.page_table_size
  pub at_end : AtEnd a → AtEnd b
  pub bits : AtEnd a → (j c : ℕ) → bit a j c ≡ 0 → bit b j c ≡ 0

Keeps-refl : (a : Pcb) → Keeps a a
Keeps-refl a = record {
  size = refl;
  counters = refl;
  pages = refl;
  at_end = λ h. h;
  bits = λ h j c e. e;
}

Keeps-trans : (a b c : Pcb) → Keeps a b → Keeps b c → Keeps a c
Keeps-trans a b c k l = record {
  size = l.size ∙ k.size;
  counters = l.counters ∙ k.counters;
  pages = l.pages ∙ k.pages;
  at_end = λ h. l.at_end (k.at_end h);
  bits = λ h j i e. l.bits (k.at_end h) j i (k.bits h j i e);
}

-- What a place of an array holds after a write, if it is that place or another.
get_or-set-cases :
    {A : Type 0} (xs : List A) (i j : ℕ) (v d : A)
    → ((j ≡ i) × (get_or (set xs i v) j d ≡ v)) ⊎ (get_or (set xs i v) j d ≡ get_or xs j d)
get_or-set-cases [] i j v d = inr refl
get_or-set-cases (x ∷ xs) zero zero v d = inl (refl, refl)
get_or-set-cases (x ∷ xs) zero (suc j) v d = inr refl
get_or-set-cases (x ∷ xs) (suc i) zero v d = inr refl
get_or-set-cases (x ∷ xs) (suc i) (suc j) v d = elim (get_or-set-cases xs i j v d) [
  | inl (e, h) ↦ inl (ap suc e, h)
  | inr h ↦ inr h
]

module _ {W : Type 0} where
  put_pcb-Keeps :
      (p q : ℕ) (b : Pcb) (m : Machine W)
      → Keeps (pcb_at q m) b
      → Keeps (pcb_at p m) (pcb_at p (put_pcb q b m))
  put_pcb-Keeps p q b m k = elim (get_or-set-cases m.pcbs q p b no_pcb) [
    | inl (e, h) ↦ subst (Keeps (pcb_at p m)) (sym h) (subst (λ n. Keeps (pcb_at n m) b) (sym e) k)
    | inr h ↦ subst (Keeps (pcb_at p m)) (sym h) (Keeps-refl (pcb_at p m))
  ]

-- A page that is put in keeps the process as it is, if none of its lines becomes valid.
put-bits :
    (a : Pcb) (i : ℕ) (page : Page) (fp : Stream)
    → (AtEnd a → fp.rest ≡ [])
    → (AtEnd a → (c : ℕ) → bit a i c ≡ 0 → get_or page.valid_bit c 0 ≡ 0)
    → Keeps a (record a { page_table = set a.page_table i page; source_file = fp })
put-bits a i page fp ended invalid = record {
  size = refl;
  counters = refl;
  pages = refl;
  at_end = ended;
  bits = λ h j c e. elim (get_or-set-cases a.page_table i j page (page_init 0 0)) [
    | inl (same, put) ↦
        ap (λ (q : Page). get_or q.valid_bit c 0) put
        ∙ invalid h c (subst (λ n. bit a n c ≡ 0) same e)
    | inr other ↦ ap (λ (q : Page). get_or q.valid_bit c 0) other ∙ e
  ];
}

evict_lines-bits :
    (F V i n : ℕ) (page : Page) (m : List Cell) (c : ℕ)
    → get_or page.valid_bit c 0 ≡ 0
    → get_or (evict_lines F V i n page m).1.0.valid_bit c 0 ≡ 0
unfolding evict_lines
evict_lines-bits F V i zero page m c e = e
evict_lines-bits F V i (suc n) page m c e =
    evict_lines-bits F V (i + 1) n _ _ c
      (elim (get_or-set-cases page.valid_bit i c 0 0) [ inl (_, h) ↦ h | inr h ↦ h ∙ e ])

abbrev no_bits : List ℕ
no_bits = 0 ∷ 0 ∷ 0 ∷ []

zeros : (c : ℕ) → get_or no_bits c 0 ≡ 0
zeros zero = refl
zeros (suc zero) = refl
zeros (suc (suc zero)) = refl
zeros (suc (suc (suc c))) = refl

frame_alloc-bits :
    (F V : ℕ) (pid : Str) (m : List Cell) (f : Frame)
    → frame_alloc F V pid m ≡ some f
    → f.valid_bit ≡ no_bits
unfolding frame_alloc
frame_alloc-bits F V pid m f e = ground (arith, e)

-- Nothing is read at the end.
abbrev ended_stream : Stream → Stream
ended_stream fp = record { rest = []; eof = fp.eof || true }

fgets-ended : (fp : Stream) → fp.rest ≡ [] → fgets 999 fp ≡ (none, ended_stream fp)
unfolding fgets take_line
fgets-ended fp h = rw h refl

-- At the end of its file a page that is loaded has no valid line.
load_page-ended :
    (F V : ℕ) (pid : Str) (page : Page) (fp : Stream) (m : List Cell) (r : Reading)
    → fp.rest ≡ []
    → load_page F V pid page fp m ≡ some r
    → (r.source_file.rest ≡ []) × (r.page.valid_bit ≡ no_bits)
unfolding load_page read_lines
load_page-ended F V pid page fp m r ended e = elim (Option-cases (frame_alloc F V pid m)) [
  | inl full ↦
      let failed : load_page F V pid page fp m ≡ none = ground (arith, full) in
      let wrong = sym failed ∙ e in cc
  | inr (f, given) ↦
      let at_end = fgets-ended fp ended in
      let loaded : Reading = record {
        memory = f.memory;
        page = record page { index = f.index; valid_bit = f.valid_bit };
        source_file = ended_stream fp;
      } in
      let same : load_page F V pid page fp m ≡ some loaded = ground (arith, given, at_end) in
      let whole : loaded ≡ r = some-injective loaded r (sym same ∙ e) in
      (
        ap (λ (q : Reading). q.source_file.rest) (sym whole),
        ap (λ (q : Reading). q.page.valid_bit) (sym whole) ∙ frame_alloc-bits F V pid m f given,
      )
]

module _ {W : Type 0} (F V : ℕ) (parse : Str → List Cell × W → ℤ × (List Cell × W))
    (pid_name : ℕ → Str) (file_of : Str → W → Option Str) where
  load-Keeps :
      (p i : ℕ) (m m' : Machine W)
      → AtEnd (pcb_at p m)
      → load F V parse pid_name file_of p i m ≡ some m'
      → Keeps (pcb_at p m) (pcb_at p m')
  unfolding load
  load-Keeps p i m m' ended e =
      let pcb = pcb_at p m in
      elim (Option-cases
        (load_page F V (pid_name pcb.pid) (page_at p i m) pcb.source_file m.memory)) [
          | inl full ↦ let wrong : none ≡ some m' = sym (ap (Option.map _) full) ∙ e in cc
          | inr (r, there) ↦
              let (rest, bits) =
                load_page-ended F V (pid_name pcb.pid) (page_at p i m) pcb.source_file m.memory r
                  ended there in
              let b : Pcb = record pcb {
                page_table = set pcb.page_table i r.page;
                source_file = r.source_file;
              } in
              let k : Keeps pcb b =
                put-bits pcb i r.page r.source_file (λ h. rest)
                  (λ h c z. ap (λ l. get_or l c 0) bits ∙ zeros c) in
              subst (λ n. Keeps pcb (pcb_at p n))
                (some-injective _ m' (sym (ap (Option.map _) there) ∙ e))
                (put_pcb-Keeps p p b (record m { memory = r.memory }) k)
        ]

  evict-Keeps :
      (p : ℕ) (m : Machine W)
      → Post (λ m'. Keeps (pcb_at p m) (pcb_at p m')) (evict F V parse pid_name file_of m)
  unfolding evict
  evict-Keeps p m =
      Post-or_else (λ m'. Keeps (pcb_at p m) (pcb_at p m')) (split_last m.lru_cache) exited _ tt
        (λ cache found.
          let victim = page_at cache.1.0 cache.1.1 m in
          Post-or_else (λ m'. Keeps (pcb_at p m) (pcb_at p m'))
            (find_pcb m victim.page_pid m.all_pcb) crashed _ tt
            (λ r there.
              let j = victim.page_index in
              let a = pcb_at r m in
              let out = page_evict F V (page_at r j m) m.memory in
              put_pcb-Keeps p r (record a { page_table = set a.page_table j out.1.0 })
                (record m { lru_cache = cache.0; memory = out.1.1 })
                (put-bits a j out.1.0 a.source_file (λ h. h)
                  (λ h c z. evict_lines-bits F V 0 lines_of_page (page_at r j m) m.memory c z))))

  -- Whatever has to go for it, a page that is loaded has no valid line when the file has ended.
  pub make_present-Keeps :
      (p i : ℕ) (m : Machine W)
      → AtEnd (pcb_at p m)
      → Post
          (λ m'. Keeps (pcb_at p m) (pcb_at p m'))
          (make_present F V parse pid_name file_of p i m)
  unfolding make_present
  make_present-Keeps p i m ended =
      let P : Machine W → Type 0 = λ m'. Keeps (pcb_at p m) (pcb_at p m') in
      Post-or_else P (load F V parse pid_name file_of p i m) _ _
        (Post-bind P P (evict F V parse pid_name file_of m) _ (evict-Keeps p m) (λ m1 k.
          Post-or_else P (load F V parse pid_name file_of p i m1) (done m1) _ k (λ m2 e.
            Keeps-trans (pcb_at p m) (pcb_at p m1) (pcb_at p m2) k
              (load-Keeps p i m1 m2 (k.at_end ended) e))))
        (λ m1 e. load-Keeps p i m m1 ended e)
