-- ===== src/Fs/Tests/Sparing.antt =====
-- The theorems about the free map, on a bitmap that is a function and takes the first free run
-- that starts below 10.
use native.Mathlib.Decide.{ℕ_discrete}
use mathlib.Core.Path.{subst}
use comp310_w.Prelude.{
  ℕ, zero, suc, ◌+◌, ◌≡◌, refl, sym, ◌∙◌, ap, leb, ltb, if◌then◌else◌, ◌&&◌, Bool, not, true,
  Option, none, some, arith, ◌⊎◌, inl, inr, Option-cases,
}
use comp310_w.Prelude.Scan.{first_from, first_from-Found}
use comp310_w.Fs.FreeMap.{
  Bitmap, IsBitmap, Inside, State, bitmap_error, free_map_allocate, free_map_release,
}
use comp310_w.Fs.FreeMap.Allocating.{
  Allocated, free_map_allocate-Allocated, free_map_release-free_map_allocate,
}

abbrev pub Bits : Type 0
Bits = ℕ → Bool

abbrev same : Bool → Bool → Bool
same a b = if a then b else not b

abbrev run : Bits → ℕ → ℕ → Bool → Bool
run b i zero v = true
run b i (suc n) v = same (b i) v && run b (suc i) n v

abbrev fits : Bits → ℕ → ℕ → Bool → ℕ → Bool
fits b start cnt v i = leb start i && run b i cnt v

abbrev set_bits : Bits → ℕ → ℕ → Bool → Bits
set_bits b start cnt v x = if leb start x && ltb x (start + cnt) then v else b x

abbrev flip_at : Bits → ℕ → Bool → Option ℕ → ℕ × Bits
flip_at b cnt v none = (bitmap_error, b)
flip_at b cnt v (some i) = (i, set_bits b i cnt (not v))

abbrev search : Bits → ℕ → ℕ → Bool → Option ℕ
search b start cnt v = first_from (fits b start cnt v) 0 10

abbrev pub bits : {W : Type 0} → Bitmap Bits W
bits = record {
  test = λ b x. b x;
  mark = λ b x. set_bits b x 1 true;
  count = λ b. if b 2 then 0 else 1;
  set_multiple = set_bits;
  scan_and_flip = λ b start cnt v. flip_at b cnt v (search b start cnt v);
  write = λ b w. (true, w);
}

run-Inside :
    (b : Bits) (i cnt : ℕ) (v : Bool) (x : ℕ) → run b i cnt v ≡ true → Inside i cnt x → b x ≡ v
run-Inside b i zero v x h c = absurd (omega (arith, c.0, c.1))
run-Inside b i (suc n) v x h c = elim (ℕ_discrete x i) [
  | yes e ↦ rw e (ground (arith, h))
  | no ne ↦
      run-Inside b (suc i) n v x (ground (arith, h)) (omega (arith, c.0, ne), omega (arith, c.1))
]

pub bits-IsBitmap : {W : Type 0} → IsBitmap (bits {W = W})
bits-IsBitmap = record {
  set_multiple-inside = λ b start cnt v x i. ground (arith, i.0, i.1);
  set_multiple-outside = λ b start cnt v x o. ground (arith, o);
  scan-error = λ b start cnt v e. elim (Option-cases (search b start cnt v)) [
    | inl n ↦ ap (λ o. (flip_at b cnt v o).1) n
    | inr (i, s) ↦
        let found = first_from-Found (fits b start cnt v) 0 10 s in
        let error : i ≡ bitmap_error = sym (ap (λ o. (flip_at b cnt v o).0) s) ∙ e in
        absurd (omega (arith, found.high, error))
  ];
  scan-free = λ b start cnt v x ne i. elim (Option-cases (search b start cnt v)) [
    | inl n ↦ absurd (ne (ap (λ o. (flip_at b cnt v o).0) n))
    | inr (j, s) ↦
        let found = first_from-Found (fits b start cnt v) 0 10 s in
        run-Inside b j cnt v x (ground (arith, found.passes))
          (subst (λ y. Inside y cnt x) (ap (λ o. (flip_at b cnt v o).0) s) i)
  ];
  scan-flip = λ b start cnt v ne. elim (Option-cases (search b start cnt v)) [
    | inl n ↦ absurd (ne (ap (λ o. (flip_at b cnt v o).0) n))
    | inr (i, s) ↦
        ap (λ o. (flip_at b cnt v o).1) s
        ∙ ap (λ y. set_bits b y cnt (not v)) (sym (ap (λ o. (flip_at b cnt v o).0) s))
  ];
}

-- The sectors 0 and 1 are in use.
abbrev small : State Bits ℕ
small = record { free_map = λ x. ltb x 2; file = true; files = 0 }

taken : (free_map_allocate bits 3 small).0 ≡ some 2
unfolding free_map_allocate first_from
taken = refl

free_map_allocate-Allocated_example :
    ((sector : ℕ) × ((free_map_allocate bits 3 small).0 ≡ some sector)
      × Allocated {W = ℕ} bits bits-IsBitmap 3 small.free_map
          ((free_map_allocate bits 3 small).1.free_map)
          sector)
    ⊎ (((free_map_allocate bits 3 small).0 ≡ none)
        × ((x : ℕ) → (free_map_allocate bits 3 small).1.free_map x ≡ small.free_map x))
free_map_allocate-Allocated_example = free_map_allocate-Allocated {W = ℕ} bits bits-IsBitmap 3 small

free_map_release-free_map_allocate_example :
    (free_map_release bits 2 3 ((free_map_allocate bits 3 small).1)).free_map 4 ≡ small.free_map 4
free_map_release-free_map_allocate_example =
    free_map_release-free_map_allocate bits bits-IsBitmap 3 small 2 taken 4
