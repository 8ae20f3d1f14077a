-- ===== src/Fs/Writing/Round.antt =====
-- What one round of inode_write_at (a3/fs/inode.c) leaves in a sector.
use comp310_w.Prelude.{
  ℕ, ◌+◌, ◌-◌, ◌≤◌, ◌<◌, leb, ltb, ◌==◌, if◌then◌else◌, ◌&&◌, ◌||◌, true, List, get_or, length, ◌≡◌,
  refl, sym, ◌∙◌, ap, inl, inr, Bool-cases, if_true, if_false, arith,
}
use comp310_w.Prelude.Ranges.{range, length-range, get_or-range}
use comp310_w.Fs.Sectors.{Sectors}
use comp310_w.Fs.Writing.{Layout, new_sector, bounced}

module _ {S Sector : Type 0} (sectors : Sectors S Sector) (layout : Layout Sector)
    (bytes-of_bytes : (l : List ℕ) → length l ≡ 512 → layout.bytes (layout.of_bytes l) ≡ l) where
  range-byte :
      (f : ℕ → ℕ) (a i : ℕ)
      → i < 512
      → get_or (layout.bytes (layout.of_bytes (range f a 512))) i 0 ≡ f (a + i)
  range-byte f a i h =
      ap (λ l. get_or l i 0) (bytes-of_bytes (range f a 512) (length-range f a 512))
      ∙ get_or-range f a 512 i 0 h

  -- A byte of the chunk is the caller's, and every other one is as it was.
  pub new_sector-byte :
      (ofs chunk : ℕ) (buffer : List ℕ) (w : ℕ) (old : Sector) (i : ℕ)
      → ofs + chunk ≤ 512
      → i < 512
      → get_or (layout.bytes (new_sector sectors layout ofs chunk buffer w old)) i 0 ≡ (
          if leb ofs i && ltb i (ofs + chunk)
          then get_or buffer (w + (i - ofs)) 0
          else get_or (layout.bytes old) i 0)
  unfolding new_sector
  new_sector-byte ofs chunk buffer w old i fits h =
      elim (Bool-cases ((ofs == 0) && (chunk == 512))) [
        | inl e ↦
            let e0 : ofs ≡ 0 = ground arith in
            let inside : (leb ofs i && ltb i (ofs + chunk)) ≡ true = ground arith in
            let same : w + i ≡ w + (i - ofs) = omega (arith, e0) in
            ap (λ v. get_or (layout.bytes v) i 0) (if_true _ _ e)
            ∙ range-byte (λ i. get_or buffer i 0) w i h
            ∙ ap (λ k. get_or buffer k 0) same
            ∙ sym (if_true _ _ inside)
        | inr e ↦
            let partial : (ltb 0 ofs || ltb chunk (512 - ofs)) ≡ true = ground arith in
            let e0 : 0 + i ≡ i = omega arith in
            ap (λ v. get_or (layout.bytes v) i 0) (if_false _ _ e)
            ∙ range-byte _ 0 i h
            ∙ rw (e0, partial) refl
      ]

  pub disk-bounced :
      (x ofs chunk : ℕ) (s : S)
      → sectors.disk (bounced sectors layout x ofs chunk s) ≡ sectors.disk s
  unfolding bounced
  disk-bounced x ofs chunk s = elim (Bool-cases (ltb 0 ofs || ltb chunk (512 - ofs))) [
    | inl e ↦ rw e (sectors.disk-read x s)
    | inr e ↦ rw e refl
  ]
