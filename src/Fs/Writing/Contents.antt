-- ===== src/Fs/Writing/Contents.antt =====
-- What inode_write_at (a3/fs/inode.c) does to the contents of a file that has room for the bytes.
use mathlib.Core.Path.{subst}
use comp310_w.Prelude.{
  ℕ, zero, suc, ◌+◌, ◌-◌, ◌/◌, ◌≤◌, ◌<◌, leb, ltb, ◌==◌, ◌&&◌, not, true, false, some, List, get_or,
  length, ◌≡◌, ◌≢◌, refl, sym, ◌∙◌, ap, if_true, if_false, arith,
}
use comp310_w.Prelude.Int.{pos, pred_int}
use comp310_w.Prelude.Ranges.{range, range-congr, take-range, take-all}
use comp310_w.Fs.Inode.{no_sector, Inode, byte_to_sector, lesser, inode_read_at}
use comp310_w.Fs.Inode.Index.{sector_of, byte_to_sector-disk, byte_to_sector-sector_of}
use comp310_w.Fs.Inode.Chunks.{rest}
use comp310_w.Fs.Inode.Reading.{byte_at, inode_read_at-range}
use comp310_w.Fs.Space.{Space}
use comp310_w.Fs.Writing.{Layout, write_loop, prepare, finish, inode_write_at}
use comp310_w.Fs.Writing.Apart.{Apart}
use comp310_w.Fs.Writing.Bytes.{overlay}
use comp310_w.Fs.Writing.Loop.{write_loop-Overlaid}

pred_int-pos : (n : ℕ) → 0 < n → pred_int n ≡ pos (n - 1)
unfolding pred_int
pred_int-pos zero h = absurd (omega arith)
pred_int-pos (suc n) h = let e : n ≡ suc n - 1 = omega arith in ap pos e

module _ {S Sector : Type 0} (space : Space S Sector) (layout : Layout Sector) where
  -- A write that may go on: it is not denied, and the file has the bytes, with a sector for the last.
  pub record Room (inode : Inode) (size offset : ℕ) (d : ℕ → Sector) : Type 0 where
    pub allowed : inode.deny_write_cnt ≡ 0
    pub some_bytes : 0 < size
    pub within : offset + size ≤ inode.disk_inode.length
    pub last :
        sector_of space.sectors layout.words d inode.disk_inode ((offset + size - 1) / 512)
        ≢ no_sector
    pub apart : Apart space.sectors layout inode d

module _ {S Sector : Type 0} (space : Space S Sector) (layout : Layout Sector)
    (bytes-of_bytes : (l : List ℕ) → length l ≡ 512 → layout.bytes (layout.of_bytes l) ≡ l) where
  last_sector :
      (inode : Inode) (size offset : ℕ) (s : S)
      → Room space layout inode size offset (space.sectors.disk s)
      → ((byte_to_sector space.sectors layout.words inode (pred_int (offset + size)) s).0
          == no_sector)
        ≡ false
  last_sector inode size offset s r =
      let e = pred_int-pos (offset + size) (omega (arith, r.some_bytes)) in
      let found =
        byte_to_sector-sector_of space.sectors layout.words inode (offset + size - 1) s
          (omega (arith, r.some_bytes, r.within)) in
      let ne = r.last in rw (e, found) (ground (arith, ne))

  prepare-Room :
      (inode : Inode) (size offset : ℕ) (s : S)
      → Room space layout inode size offset (space.sectors.disk s)
      → prepare space layout inode size offset s ≡ (
        true,
        inode,
        (byte_to_sector space.sectors layout.words inode (pred_int (offset + size)) s).1,
      )
  unfolding prepare
  prepare-Room inode size offset s r = if_false _ _ (last_sector inode size offset s r)

  finish-done :
      (fuel : ℕ) (inode : Inode) (buffer : List ℕ) (size offset n : ℕ) (s s' : S)
      → write_loop space.sectors layout fuel inode buffer size offset 0 s ≡ some (n, s')
      → finish space layout fuel buffer size offset (true, inode, s) ≡ some (n, inode, s')
  unfolding finish
  finish-done fuel inode buffer size offset n s s' e = rw (finish, e) refl

  -- If writing is not denied for an inode, at least one byte is to be written, the bytes lie within the
  -- length of the file, the last of them has a sector, and the sectors of the file's bytes are different
  -- from each other and from the sectors of its index blocks: then `inode_write_at` ends with one round
  -- more than there are bytes and writes them all. Afterwards the bytes of the file from the offset on
  -- are those of the buffer, every other byte of the file is as it was, and so is the inode. A sector
  -- gives back the 512 bytes that are put into it.
  pub inode_write_at-overlay :
      (fuel : ℕ) (inode : Inode) (buffer : List ℕ) (size offset : ℕ) (s : S)
      → size < fuel
      → Room space layout inode size offset (space.sectors.disk s)
      → (s' : S) × (inode_write_at space layout fuel inode buffer size offset s
          ≡ some (size, inode, s'))
        × ((p : ℕ)
            → p < inode.disk_inode.length
            → byte_at space.sectors layout.words layout.bytes (space.sectors.disk s') inode p
              ≡ overlay buffer 0 offset size
                  (byte_at space.sectors layout.words layout.bytes (space.sectors.disk s) inode)
                  p)
  unfolding inode_write_at
  inode_write_at-overlay fuel inode buffer size offset s h r =
      let last = byte_to_sector space.sectors layout.words inode (pred_int (offset + size)) s in
      let ready = prepare-Room inode size offset s r in
      let e = pred_int-pos (offset + size) (omega (arith, r.some_bytes)) in
      let same : space.sectors.disk (last.1) ≡ space.sectors.disk s =
        rw e (byte_to_sector-disk space.sectors layout.words inode (offset + size - 1) s) in
      let (s', done, o) =
        write_loop-Overlaid space.sectors layout bytes-of_bytes inode buffer fuel size offset 0
          (last.1) h (subst (Apart space.sectors layout inode) (sym same) (r.apart)) in
      let all : rest inode size offset ≡ size = ground (arith, r.within) in
      let count : 0 + rest inode size offset ≡ size = omega (arith, all) in
      let open_to_write : (inode.deny_write_cnt == 0) ≡ true = ground (arith, r.allowed) in
      (
        s',
        if_false _ _ (ap not open_to_write)
            ∙ ap (finish space layout fuel buffer size offset) ready
            ∙ finish-done fuel inode buffer size offset _ (last.1) s' done
            ∙ ap (λ n. some (n, inode, s')) count,
        λ p b.
            o.bytes p b
            ∙ ap
                (λ n.
                  overlay buffer 0 offset n
                    (byte_at space.sectors layout.words layout.bytes (space.sectors.disk (last.1))
                      inode)
                    p)
                all
            ∙ ap
                (λ d.
                  overlay buffer 0 offset size
                    (byte_at space.sectors layout.words layout.bytes d inode) p)
                same,
      )

  -- Under the same conditions, with a buffer of just the bytes that are written: if writing is not denied,
  -- at least one byte is written, the bytes lie within the length of the file, so that it does not grow,
  -- the last of them has a sector, and the sectors of the file's bytes are different from each other and
  -- from those of its index blocks, then `inode_read_at` of as many bytes at the same offset after
  -- `inode_write_at` returns the buffer. A sector has 512 bytes and gives back those put into it; there
  -- is fuel for more rounds than bytes.
  pub inode_read_at-inode_write_at :
      ((v : Sector) → length (layout.bytes v) ≡ 512)
      → (fuel : ℕ) (inode : Inode) (buffer : List ℕ) (size offset : ℕ) (s : S) → size < fuel
      → length buffer ≡ size
      → Room space layout inode size offset (space.sectors.disk s)
      → (s' s'' : S) × (inode_write_at space layout fuel inode buffer size offset s
          ≡ some (size, inode, s'))
        × (inode_read_at space.sectors layout.words layout.bytes fuel inode size offset s'
            ≡ some (size, buffer, s''))
  inode_read_at-inode_write_at sized fuel inode buffer size offset s h whole r =
      let (s', written, bytes) = inode_write_at-overlay fuel inode buffer size offset s h r in
      let (s'', read, _) =
        inode_read_at-range space.sectors layout.words layout.bytes sized fuel inode size offset s'
          h in
      let f = byte_at space.sectors layout.words layout.bytes (space.sectors.disk s') inode in
      let g = byte_at space.sectors layout.words layout.bytes (space.sectors.disk s) inode in
      let all : lesser size (inode.disk_inode.length - offset) ≡ size = ground (arith, r.within) in
      let same : range f offset size ≡ buffer =
        range-congr f (λ i. get_or buffer i 0) offset 0 size
          (λ k b.
            let inside : (leb offset (offset + k) && ltb (offset + k) (offset + size)) ≡ true =
              ground arith in
            let place : 0 + (offset + k - offset) ≡ 0 + k = omega arith in
            bytes (offset + k) (omega (arith, r.within))
            ∙ if_true _ _ inside
            ∙ ap (λ i. get_or buffer i 0) place)
        ∙ sym (take-range buffer 0 size (omega (arith, whole)))
        ∙ take-all buffer size whole in
      (s', s'', written, read ∙ rw (all, same) refl)
