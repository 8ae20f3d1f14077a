-- ===== src/Fs/Writing/Loop.antt =====
-- The loop of inode_write_at (a3/fs/inode.c).
use mathlib.Core.Path.{subst}
use comp310_w.Prelude.{
  ℕ, zero, suc, ◌+◌, ◌-◌, ◌/◌, ◌%◌, ◌<◌, leb, ltb, ◌==◌, ◌&&◌, false, some, List, length, ◌≡◌, refl,
  sym, ◌∙◌, ap, inl, inr, Bool-cases, if_true, if_false, arith,
}
use comp310_w.Prelude.Int.{pos}
use comp310_w.Prelude.Update.{update}
use comp310_w.Fs.Sectors.{Sectors}
use comp310_w.Fs.Inode.{Inode, chunk_size, byte_to_sector}
use comp310_w.Fs.Inode.Index.{sector_of, read-again, byte_to_sector-disk, byte_to_sector-sector_of}
use comp310_w.Fs.Inode.Chunks.{rest, chunk_size-Round}
use comp310_w.Fs.Inode.Reading.{byte_at}
use comp310_w.Fs.Writing.{Layout, new_sector, bounced, write_loop}
use comp310_w.Fs.Writing.Round.{disk-bounced}
use comp310_w.Fs.Writing.Apart.{Apart, Apart-update}
use comp310_w.Fs.Writing.Bytes.{overlay, overlay-overlay, written-overlay}

module _ {S Sector : Type 0} (sectors : Sectors S Sector) (layout : Layout Sector)
    (bytes-of_bytes : (l : List ℕ) → length l ≡ 512 → layout.bytes (layout.of_bytes l) ≡ l)
    (inode : Inode) (buffer : List ℕ) where
  abbrev content : (ℕ → Sector) → ℕ → ℕ
  content d p = byte_at sectors layout.words layout.bytes d inode p

  abbrev sec : (ℕ → Sector) → ℕ → ℕ
  sec d i = sector_of sectors layout.words d inode.disk_inode i

  module _ (k size offset w : ℕ) (s : S) where
    abbrev at_sector : ℕ × S
    at_sector = byte_to_sector sectors layout.words inode (pos offset) s

    -- The state in which a round leaves the disk.
    abbrev next : S
    next =
        sectors.write (at_sector.0)
          (new_sector sectors layout (offset % 512) (chunk_size inode size offset) buffer w
            ((sectors.read (at_sector.0) (at_sector.1)).0))
          (bounced sectors layout (at_sector.0) (offset % 512) (chunk_size inode size offset)
            (at_sector.1))

    write_turn :
        (size == 0) ≡ false
        → (chunk_size inode size offset == 0) ≡ false
        → write_loop sectors layout (suc k) inode buffer size offset w s
          ≡ write_loop sectors layout k inode buffer
              (size - chunk_size inode size offset)
              (offset + chunk_size inode size offset)
              (w + chunk_size inode size offset)
              next
    unfolding write_loop
    write_turn e e2 = if_false _ _ e ∙ if_false _ _ e2

    disk-next :
        offset < inode.disk_inode.length
        → sectors.disk next
          ≡ update (sectors.disk s) (sec (sectors.disk s) (offset / 512)) (
              new_sector sectors layout
                (offset % 512)
                (chunk_size inode size offset)
                buffer
                w
                (sectors.disk s (sec (sectors.disk s) (offset / 512))))
    disk-next inside =
        let d = sectors.disk s in
        let c = chunk_size inode size offset in
        let index : at_sector.0 ≡ sec d (offset / 512) =
          byte_to_sector-sector_of sectors layout.words inode offset s inside in
        let same : sectors.disk (at_sector.1) ≡ d =
          byte_to_sector-disk sectors layout.words inode offset s in
        let old : (sectors.read (at_sector.0) (at_sector.1)).0 ≡ d (at_sector.0) =
          (read-again sectors layout.words (at_sector.0) s (at_sector.1) same).0 in
        let new : Sector → Sector = λ v. new_sector sectors layout (offset % 512) c buffer w v in
        sectors.disk-write (at_sector.0) _ _
        ∙ ap (λ d'. update d' (at_sector.0) (new ((sectors.read (at_sector.0) (at_sector.1)).0)))
            (disk-bounced sectors layout bytes-of_bytes (at_sector.0) (offset % 512) c (at_sector.1)
              ∙ same)
        ∙ ap (λ v. update d (at_sector.0) (new v)) old
        ∙ ap (λ x. update d x (new (d x))) index

  -- What the loop leaves, from a disk on.
  pub record Overlaid (d d' : ℕ → Sector) (w offset n : ℕ) : Type 0 where
    pub apart : Apart sectors layout inode d'
    pub bytes :
        (p : ℕ)
        → p < inode.disk_inode.length
        → content d' p ≡ overlay buffer w offset n (content d) p

  nothing-Overlaid :
      (d d' : ℕ → Sector) (w offset n : ℕ)
      → d' ≡ d
      → n ≡ 0
      → Apart sectors layout inode d
      → Overlaid d d' w offset n
  nothing-Overlaid d d' w offset n e none_left a = record {
    apart = subst (Apart sectors layout inode) (sym e) a;
    bytes = λ p h.
        let out : (leb offset p && ltb p (offset + n)) ≡ false = ground (arith, none_left) in
        ap (λ d. content d p) e ∙ sym (if_false _ _ out);
  }

  -- One round, and then the rest.
  round-Overlaid :
      (d d1 d' : ℕ → Sector) (w offset c n m : ℕ)
      → c + n ≡ m
      → ((p : ℕ)
          → p < inode.disk_inode.length
          → content d1 p ≡ overlay buffer w offset c (content d) p)
      → Overlaid d1 d' (w + c) (offset + c) n
      → Overlaid d d' w offset m
  round-Overlaid d d1 d' w offset c n m whole first later = record {
    apart = later.apart;
    bytes = λ p h.
        later.bytes p h
        ∙ overlay-overlay buffer w offset c n m (content d) (content d1) p whole (first p h);
  }

  pub write_loop-Overlaid :
      (k size offset w : ℕ) (s : S)
      → size < k
      → Apart sectors layout inode (sectors.disk s)
      → (s' : S) × (write_loop sectors layout k inode buffer size offset w s
          ≡ some (w + rest inode size offset, s'))
        × Overlaid (sectors.disk s) (sectors.disk s') w offset (rest inode size offset)
  unfolding write_loop
  write_loop-Overlaid zero size offset w s h a = absurd (omega arith)
  write_loop-Overlaid (suc k) size offset w s h a =
      let c = chunk_size inode size offset in
      elim (Bool-cases (size == 0)) [
        | inl e ↦
            let none_left : rest inode size offset ≡ 0 = ground arith in
            let same : w ≡ w + rest inode size offset = omega (arith, none_left) in
            (
              s,
              if_true _ _ e ∙ ap (λ n. some (n, s)) same,
              nothing-Overlaid (sectors.disk s) (sectors.disk s) w offset _ refl none_left a,
            )
        | inr e ↦ elim (Bool-cases (c == 0)) [
          | inl e2 ↦
              let s1 = (byte_to_sector sectors layout.words inode (pos offset) s).1 in
              let none_left : rest inode size offset ≡ 0 = ground arith in
              let same : w ≡ w + rest inode size offset = omega (arith, none_left) in
              (
                s1,
                if_false _ _ e ∙ if_true _ _ e2 ∙ ap (λ n. some (n, s1)) same,
                nothing-Overlaid (sectors.disk s) (sectors.disk s1) w offset _
                    (byte_to_sector-disk sectors layout.words inode offset s) none_left a,
              )
          | inr e2 ↦
              let r = chunk_size-Round inode size offset e e2 in
              let d = sectors.disk s in
              let s1 = next k size offset w s in
              let new =
                new_sector sectors layout (offset % 512) c buffer w (d (sec d (offset / 512))) in
              let d1 = update d (sec d (offset / 512)) new in
              let disk1 : sectors.disk s1 ≡ d1 = disk-next k size offset w s (r.inside) in
              let a1 : Apart sectors layout inode d1 =
                Apart-update sectors layout inode d a (offset / 512) (omega (arith, r.inside))
                  new in
              let (s', done, later) =
                write_loop-Overlaid k (size - c) (offset + c) (w + c) s1 (omega (arith, r.less))
                  (subst (Apart sectors layout inode) (sym disk1) a1) in
              let total : w + c + rest inode (size - c) (offset + c) ≡ w + rest inode size offset =
                omega (arith, r.whole) in
              (
                s',
                write_turn k size offset w s e e2 ∙ done ∙ ap (λ n. some (n, s')) total,
                round-Overlaid d (sectors.disk s1) (sectors.disk s') w offset c
                    (rest inode (size - c) (offset + c)) (rest inode size offset) (r.whole)
                    (λ p h.
                      ap (λ d. content d p) disk1
                      ∙ written-overlay sectors layout bytes-of_bytes inode buffer d a offset c w
                          (r.inside) (r.fits) p h)
                    later,
              )
        ]
      ]
