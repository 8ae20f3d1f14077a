-- ===== src/A3/Memory/Alloc.antt =====
-- What `frame_alloc` of a3/shellmemory.c gives out: free lines below the border, and never the same
-- line twice.
use native.Mathlib.Decide.{ℕ_discrete}
use comp310_w.Prelude.{
  ℕ, zero, suc, ◌+◌, ◌≤◌, ◌<◌, ◌≡◌, refl, ap, ◌∙◌, ◌≢◌, ◌⊎◌, inl, inr, ◌==◌, true, none, some, List,
  [], ◌∷◌, Str, str_eq, str_eq_ne, arith, length, get_or, get_or-set_self, get_or-set_ne,
  length-set, Option-cases,
}
use comp310_w.Prelude.Scan.{first_from, first_from-Found, first_from-none}
use comp310_w.A3.Memory.{Cell, Frame, unset, at, free_run, mark, mark_frame, frame_alloc}

module _ (F V : ℕ) where
  -- A line below the border that no process owns.
  abbrev pub IsFree : List Cell → ℕ → Type 0
  IsFree m j = (j < F) × (str_eq ((at m j).var) unset ≡ true)

  abbrev pub FreeFrame : List Cell → ℕ → Type 0
  FreeFrame m i = IsFree m i × IsFree m (i + 1) × IsFree m (i + 2)

  -- The inner loop gets over three lines exactly if they are free.
  run-FreeFrame : (m : List Cell) (i : ℕ) → (free_run F V m i 3 == i + 3) ≡ true → FreeFrame m i
  unfolding free_run
  run-FreeFrame m i h = ground arith

  FreeFrame-run : (m : List Cell) (i : ℕ) → FreeFrame m i → (free_run F V m i 3 == i + 3) ≡ true
  unfolding free_run
  FreeFrame-run m i h = ground arith

  mark_self :
      (pid : Str) (m : List Cell) (k : ℕ) → k < length m → (at (mark F V pid k m) k).var ≡ pid
  mark_self pid m k room = ap (λ (c : Cell). c.var) (get_or-set_self m k _ _ room)

  mark_keeps :
      (pid : Str) (m : List Cell) (k j : ℕ)
      → k < length m
      → (at m j).var ≡ pid
      → (at (mark F V pid k m) j).var ≡ pid
  mark_keeps pid m k j room h = elim (ℕ_discrete k j) [
    | yes e ↦ rw (← e) (mark_self pid m k room)
    | no ne ↦ ap (λ (c : Cell). c.var) (get_or-set_ne m k j _ _ ne) ∙ h
  ]

  -- Marking three lines in an array that has them.
  module _ (pid : Str) (m : List Cell) (i : ℕ) where
    mark_frame-other : (j : ℕ) → (j < i) ⊎ (i + 3 ≤ j) → at (mark_frame F V pid i m) j ≡ at m j
    mark_frame-other j out =
        let ne0 : i ≢ j = λ e. apart out (omega arith) (omega arith) in
        let ne1 : i + 1 ≢ j = λ e. apart out (omega arith) (omega arith) in
        let ne2 : i + 2 ≢ j = λ e. apart out (omega arith) (omega arith) in
        rw (
          get_or-set_ne _ (i + 2) j _ _ ne2,
          get_or-set_ne _ (i + 1) j _ _ ne1,
          get_or-set_ne m i j _ _ ne0,
        )
      where
        apart : {j : ℕ} → (j < i) ⊎ (i + 3 ≤ j) → i ≤ j → j < i + 3 → ⊥
        apart (inl h) a b = omega arith
        apart (inr h) a b = omega arith

    mark_frame-var :
        (j : ℕ) → i + 3 ≤ length m → i ≤ j → j < i + 3 → (at (mark_frame F V pid i m) j).var ≡ pid
    mark_frame-var j room low high =
        let m1 = mark F V pid i m in
        let m2 = mark F V pid (i + 1) m1 in
        let r1 : i + 1 < length m1 =
          omega (arith, length-set m i (record (at m i) { var = pid })) in
        let r2 : i + 2 < length m2 = omega (
          arith,
          length-set m i (record (at m i) { var = pid }),
          length-set m1 (i + 1) (record (at m1 (i + 1)) { var = pid }),
        ) in
        elim (ℕ_discrete j (i + 2)) [
          | yes e ↦ rw e (mark_self pid m2 (i + 2) r2)
          | no ne ↦ mark_keeps pid m2 (i + 2) j r2 (elim (ℕ_discrete j (i + 1)) [
            | yes e ↦ rw e (mark_self pid m1 (i + 1) r1)
            | no ne' ↦
                let e : j ≡ i = omega arith in
                mark_keeps pid m1 (i + 1) j r1 (rw e (mark_self pid m i (omega arith)))
          ])
        ]

  -- The frame at three lines.
  abbrev given : Str → List Cell → ℕ → Frame
  given pid m i = record {
    index = i ∷ (i + 1) ∷ (i + 2) ∷ [];
    valid_bit = 0 ∷ 0 ∷ 0 ∷ [];
    memory = mark_frame F V pid i m;
  }

  pub record Allocated (pid : Str) (m : List Cell) (f : Frame) : Type 0 where
    pub start : ℕ
    pub index : f.index ≡ start ∷ (start + 1) ∷ (start + 2) ∷ []
    pub valid_bit : f.valid_bit ≡ 0 ∷ 0 ∷ 0 ∷ []
    pub size : length f.memory ≡ length m
    pub free : FreeFrame m start
    pub first : (k : ℕ) → k < start → FreeFrame m k → ⊥
    pub owned : (j : ℕ) → start ≤ j → j < start + 3 → (at f.memory j).var ≡ pid
    pub other : (j : ℕ) → (j < start) ⊎ (start + 3 ≤ j) → at f.memory j ≡ at m j

  -- Where `frame_alloc` gives out a frame, its three lines were free, no earlier three lines in a
  -- row were, the lines now belong to the process, and no other line has changed.
  pub frame_alloc-Allocated :
      (pid : Str) (m : List Cell) (f : Frame)
      → F ≤ length m
      → frame_alloc F V pid m ≡ some f
      → Allocated pid m f
  unfolding frame_alloc
  frame_alloc-Allocated pid m f room h =
      elim (Option-cases (first_from (λ i. free_run F V m i 3 == i + 3) 0 F)) [
        | inl e ↦ absurd (ground arith)
        | inr (i, e) ↦
            let f' = first_from-Found _ 0 F e in
            let same : f ≡ given pid m i = ground arith in
            let here : FreeFrame m i = run-FreeFrame m i (f'.passes) in
            rw same (record {
              start = i;
              index = refl;
              valid_bit = refl;
              size = length-set _ (i + 2) _ ∙ length-set _ (i + 1) _ ∙ length-set m i _;
              free = here;
              first = λ k less free.
                  ground (arith, FreeFrame-run m k free, f'.first k (omega arith) less);
              owned = λ j low high. mark_frame-var pid m i j (omega (arith, here.2)) low high;
              other = λ j out. mark_frame-other pid m i j out;
            })
      ]

  -- Where it gives out none, no three free lines in a row are there.
  pub frame_alloc-none :
      (pid : Str) (m : List Cell) (i : ℕ) → frame_alloc F V pid m ≡ none → FreeFrame m i → ⊥
  unfolding frame_alloc
  frame_alloc-none pid m i h free =
      elim (Option-cases (first_from (λ i. free_run F V m i 3 == i + 3) 0 F)) [
        | inl e ↦ absurd (
            ground (
              arith,
              FreeFrame-run m i free,
              first_from-none _ 0 F e i (omega arith) (omega arith),
            ))
        | inr (k, e) ↦ absurd (ground arith)
      ]

  IsFree-within : (m : List Cell) (i x : ℕ) → FreeFrame m i → i ≤ x → x < i + 3 → IsFree m x
  IsFree-within m i x free low high = elim (ℕ_discrete x i) [
    | yes e ↦ rw e (free.0)
    | no ne ↦ elim (ℕ_discrete x (i + 1)) [
      | yes e ↦ rw e (free.1)
      | no ne' ↦ let e : x ≡ i + 2 = omega arith in rw e (free.2)
    ]
  ]

  -- Two frames that are given out one after the other share no line, unless the first owner is
  -- called "none", which is the mark of a free line.
  pub frame_alloc-apart :
      (p q : Str) (m : List Cell) (f g : Frame)
      → F ≤ length m
      → p ≢ unset
      → frame_alloc F V p m ≡ some f
      → frame_alloc F V q f.memory ≡ some g
      → (k l : ℕ) → k < 3
      → l < 3
      → get_or f.index k 0 ≢ get_or g.index l 0
  frame_alloc-apart p q m f g room used first second k l hk hl same =
      let a = frame_alloc-Allocated p m f room first in
      let b = frame_alloc-Allocated q f.memory g (rw (a.size) room) second in
      let x = a.start + k in
      let ka : get_or f.index k 0 ≡ x = rw (a.index) (nth (a.start) k hk) in
      let lb : get_or g.index l 0 ≡ b.start + l = rw (b.index) (nth (b.start) l hl) in
      let meet : x ≡ b.start + l = omega (arith, ka, lb, same) in
      let owner : (at f.memory x).var ≡ p = a.owned x (omega arith) (omega arith) in
      let free =
        IsFree-within f.memory (b.start) x (b.free) (omega (arith, meet)) (omega (arith, meet)) in
      ground (arith, owner, free.1, str_eq_ne p unset used)
    where
      nth : (s k : ℕ) → k < 3 → get_or (s ∷ (s + 1) ∷ (s + 2) ∷ []) k 0 ≡ s + k
      nth s zero h = omega arith
      nth s (suc zero) h = omega arith
      nth s (suc (suc zero)) h = omega arith
      nth s (suc (suc (suc k))) h = absurd (omega arith)
