-- ===== src/Fs/Inode/Reading.antt =====
-- Reading the bytes of a file (inode_read_at of a3/fs/inode.c).
use mathlib.Core.List.{append_assoc, append-nil}
use comp310_w.Prelude.{
  ℕ, zero, suc, ◌+◌, ◌-◌, ◌/◌, ◌%◌, ◌≤◌, ◌<◌, ◌==◌, ◌&&◌, false, Option, some, List, [], ◌++◌,
  get_or, length, ◌≡◌, refl, sym, ◌∙◌, ap, inl, inr, Bool-cases, if_true, if_false, arith,
}
use comp310_w.Prelude.Int.{pos}
use comp310_w.Prelude.Ranges.{range, range-append, range-congr, take-range, take-drop, take-all}
use comp310_w.Fs.Sectors.{Sectors}
use comp310_w.Fs.Inode.{
  block_sector_size, Inode, byte_to_sector, lesser, chunk_size, chunk_of, read_loop, inode_read_at,
}
use comp310_w.Fs.Inode.Chunks.{rest, chunk_size-Round, sector_same, sector_offset}
use comp310_w.Fs.Inode.Index.{byte_to_sector-disk, byte_to_sector-sector_of, sector_of, read-again}

module _ {S Sector : Type 0} (sectors : Sectors S Sector) (words : Sector → List ℕ)
    (bytes : Sector → List ℕ) where
  -- The byte of a file at a position, read off the disk.
  abbrev pub byte_at : (ℕ → Sector) → Inode → ℕ → ℕ
  byte_at d inode p =
      get_or (bytes (d (sector_of sectors words d inode.disk_inode (p / 512)))) (p % 512) 0

  module _ (sized : (v : Sector) → length (bytes v) ≡ block_sector_size) where
    chunk_of-range :
        (o c : ℕ) (v : Sector)
        → o + c ≤ 512
        → chunk_of sectors words bytes o c v ≡ range (λ i. get_or (bytes v) i 0) o c
    chunk_of-range o c v h = elim (Bool-cases ((o == 0) && (c == 512))) [
      | inl e ↦
          let at_start : o ≡ 0 = ground arith in
          let whole : c ≡ 512 = ground arith in
          if_true _ _ e
          ∙ rw (at_start, whole)
              (sym (take-all (bytes v) 512 (sized v))
                ∙ take-range (bytes v) 0 512 (omega (arith, sized v)))
      | inr e ↦ if_false _ _ e ∙ take-drop (bytes v) 0 o c (omega (arith, sized v))
    ]

    -- What one round reads.
    round-range :
        (inode : Inode) (p c : ℕ) (s s0 : S)
        → sectors.disk s ≡ sectors.disk s0
        → p < inode.disk_inode.length
        → p % 512 + c ≤ 512
        → chunk_of sectors words bytes (p % 512) c (
            (sectors.read
              ((byte_to_sector sectors words inode (pos p) s).0)
              ((byte_to_sector sectors words inode (pos p) s).1)).0)
          ≡ range (byte_at (sectors.disk s0) inode) p c
    round-range inode p c s s0 same h fits =
        let d = sectors.disk s0 in
        let sec = byte_to_sector sectors words inode (pos p) s in
        let index : sec.0 ≡ sector_of sectors words d inode.disk_inode (p / 512) =
          byte_to_sector-sector_of sectors words inode p s h
          ∙ ap (λ d. sector_of sectors words d inode.disk_inode (p / 512)) same in
        let value =
          (read-again sectors words (sec.0) s0 (sec.1)
            (byte_to_sector-disk sectors words inode p s ∙ same)).0 in
        chunk_of-range (p % 512) c _ fits
        ∙ range-congr _ _ (p % 512) p c (λ k b.
          let e1 = sector_same p k (omega arith) in
          let e2 = sector_offset p k (omega arith) in rw (e1, e2, value, index) refl)

    module _ (inode : Inode) (s0 : S) where
      joined :
          (count : ℕ) (buffer : List ℕ) (c left n offset : ℕ) (bs : List ℕ) (f : ℕ → ℕ) (s : S)
          → bs ≡ range f offset c
          → c + left ≡ n
          → ◌≡◌ {A = Option (ℕ × List ℕ × S)}
              (some (count + c + left, (buffer ++ bs) ++ range f (offset + c) left, s))
              (some (count + n, buffer ++ range f offset n, s))
      joined count buffer c left n offset bs f s read whole =
          let counts : count + c + left ≡ count + n = omega (arith, whole) in
          let bytes_read : (buffer ++ bs) ++ range f (offset + c) left
              ≡ buffer ++ range f offset n =
            append_assoc buffer bs (range f (offset + c) left)
            ∙ ap (λ l. buffer ++ (l ++ range f (offset + c) left)) read
            ∙ ap (λ l. buffer ++ l)
                (sym (range-append f offset c left) ∙ ap (range f offset) whole) in
          rw (counts, bytes_read) refl

      module _ (k size offset count : ℕ) (buffer : List ℕ) (s : S) where
        abbrev sec : ℕ × S
        sec = byte_to_sector sectors words inode (pos offset) s

        abbrev block : Sector × S
        block = sectors.read (sec.0) (sec.1)

        abbrev copied : List ℕ
        copied =
            chunk_of sectors words bytes (offset % 512) (chunk_size inode size offset) (block.0)

        read_turn :
            (size == 0) ≡ false
            → (chunk_size inode size offset == 0) ≡ false
            → read_loop sectors words bytes (suc k) inode size offset count buffer s
              ≡ read_loop sectors words bytes k inode
                  (size - chunk_size inode size offset)
                  (offset + chunk_size inode size offset)
                  (count + chunk_size inode size offset)
                  (buffer ++ copied)
                  (block.1)
        unfolding read_loop
        read_turn e e2 = if_false _ _ e ∙ if_false _ _ e2

      read_loop-range :
          (k size offset count : ℕ) (buffer : List ℕ) (s : S)
          → size < k
          → sectors.disk s ≡ sectors.disk s0
          → (s' : S) × (read_loop sectors words bytes k inode size offset count buffer s
              ≡ some (
                count + rest inode size offset,
                buffer ++ range (byte_at (sectors.disk s0) inode) offset (rest inode size offset),
                s',
              ))
            × (sectors.disk s' ≡ sectors.disk s0)
      unfolding read_loop range
      read_loop-range zero size offset count buffer s h same = absurd (omega arith)
      read_loop-range (suc k) size offset count buffer s h same =
          let c = chunk_size inode size offset in
          elim (Bool-cases (size == 0)) [
            | inl e ↦
                let nothing : rest inode size offset ≡ 0 = ground arith in
                let same_count : count + 0 ≡ count = omega arith in
                (
                  s,
                  rw (e, nothing, same_count)
                      (ap (λ b. some (count, b, s)) (sym (append-nil buffer))),
                  same,
                )
            | inr e ↦ elim (Bool-cases (c == 0)) [
              | inl e2 ↦
                  let nothing : rest inode size offset ≡ 0 = ground arith in
                  let same_count : count + 0 ≡ count = omega arith in
                  let s1 = (byte_to_sector sectors words inode (pos offset) s).1 in
                  (
                    s1,
                    rw (e, e2, nothing, same_count)
                        (ap (λ b. some (count, b, s1)) (sym (append-nil buffer))),
                    byte_to_sector-disk sectors words inode offset s ∙ same,
                  )
              | inr e2 ↦
                  let r = chunk_size-Round inode size offset e e2 in
                  let b = block k size offset count buffer s in
                  let bs = copied k size offset count buffer s in
                  let read = round-range inode offset c s s0 same (r.inside) (r.fits) in
                  let (s', done, same') =
                    read_loop-range k (size - c) (offset + c) (count + c) (buffer ++ bs) (b.1)
                      (omega (arith, r.less))
                      (sectors.disk-read _ _
                        ∙ byte_to_sector-disk sectors words inode offset s
                        ∙ same) in
                  (
                    s',
                    read_turn k size offset count buffer s e e2
                        ∙ done
                        ∙ joined count buffer c (rest inode (size - c) (offset + c))
                            (rest inode size offset) offset bs (byte_at (sectors.disk s0) inode) s'
                            read (r.whole),
                    same',
                  )
            ]
          ]

    -- `inode_read_at` ends and returns the bytes of the file from the offset on, as many as asked
    -- for or as there are, and their number; it leaves the disk as it is.
    pub inode_read_at-range :
        (fuel : ℕ) (inode : Inode) (size offset : ℕ) (s : S)
        → size < fuel
        → (s' : S) × (inode_read_at sectors words bytes fuel inode size offset s
            ≡ some (
              lesser size (inode.disk_inode.length - offset),
              range
                  (byte_at (sectors.disk s) inode)
                  offset
                  (lesser size (inode.disk_inode.length - offset)),
              s',
            ))
          × (sectors.disk s' ≡ sectors.disk s)
    unfolding inode_read_at
    inode_read_at-range fuel inode size offset s h =
        let (s', done, same) = read_loop-range inode s fuel size offset 0 [] s h refl in
        let n = lesser size (inode.disk_inode.length - offset) in
        let none_before : 0 + n ≡ n = omega arith in (s', rw none_before at done, same)
