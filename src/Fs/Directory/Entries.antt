-- ===== src/Fs/Directory/Entries.antt =====
-- The entries of one open directory in the bytes of its inode (a3/fs/directory.c over a3/fs/inode.c).
use native.Mathlib.Decide.{dec_lt}
use mathlib.Core.Bool.{false≢true}
use mathlib.Core.Option.{some-injective}
use comp310_w.Prelude.{
  ℕ, ◌+◌, ◌-◌, ◌*◌, ◌/◌, ◌≤◌, ◌<◌, leb, ltb, ◌==◌, ◌&&◌, if◌then◌else◌, Bool, true, false, Option,
  none, some, List, Str, length, ◌≡◌, ◌≢◌, refl, sym, ◌∙◌, ap, if_true, if_false, arith,
}
use comp310_w.Prelude.Ranges.{range, range-congr}
use comp310_w.Fs.Inode.{no_sector, Inode, lesser, inode_read_at}
use comp310_w.Fs.Inode.Index.{sector_of}
use comp310_w.Fs.Inode.Reading.{byte_at, inode_read_at-range}
use comp310_w.Fs.Space.{Space}
use comp310_w.Fs.Writing.{Layout, inode_write_at}
use comp310_w.Fs.Writing.Apart.{Apart}
use comp310_w.Fs.Writing.Contents.{Room, inode_write_at-overlay, inode_read_at-inode_write_at}
use comp310_w.Fs.Directory.{DirEntry, Files, lookup, dir_add}
use comp310_w.Fs.Directory.Search.{slot_from-Slot}
use comp310_w.Fs.Directory.Adding.{Kept, entry_of, dir_add-found}

-- `sizeof(struct dir_entry)`: a number of four bytes, a name of `NAME_MAX + 1` and a Boolean.
abbrev pub entry_size : ℕ
entry_size = 36

-- The rounds that `inode_read_at` and `inode_write_at` get.
abbrev rounds : ℕ
rounds = 37

-- How a compiler puts an entry in bytes is a parameter, as are the other inodes.
module _ {S Sector : Type 0} (space : Space S Sector) (layout : Layout Sector)
    (encode : DirEntry → List ℕ) (decode : List ℕ → DirEntry) (is_directory : ℕ → Inode × S → Bool)
    (remove : ℕ → Inode × S → Inode × S) where
  of_read : Option (ℕ × List ℕ × S) → Option DirEntry
  of_read none = none
  of_read (some (n, bytes, s)) = if n == entry_size then some (decode bytes) else none

  of_write : Inode × S → Option (ℕ × Inode × S) → Bool × (Inode × S)
  of_write st none = (false, st)
  of_write st (some (n, inode, s)) = (n == entry_size, (inode, s))

  -- `inode_read_at(dir->inode, &e, sizeof e, ofs)` for the directory that is open.
  unfoldable pub read_entry : ℕ → Inode × S → Option DirEntry
  unfolding of_read
  read_entry i (inode, s) = of_read (
      inode_read_at space.sectors layout.words layout.bytes rounds inode entry_size (entry_size * i)
        s)

  -- `inode_write_at(dir->inode, &e, sizeof e, ofs)`
  unfoldable pub write_entry : ℕ → DirEntry → Inode × S → Bool × (Inode × S)
  unfolding of_write
  write_entry i e (inode, s) =
      of_write (inode, s)
        (inode_write_at space layout rounds inode (encode e) entry_size (entry_size * i) s)

  -- The files of which the inode of one directory is open.
  abbrev pub entry_files : Files (Inode × S)
  entry_files = record {
    read = λ dir i st. if dir == st.0.sector then read_entry i st else none;
    write = λ dir i e st. if dir == st.0.sector then write_entry i e st else (false, st);
    is_directory = is_directory;
    remove = remove;
  }

  -- A directory of `n` entries that may be written: each byte has a sector of its own.
  pub record Whole (n : ℕ) (inode : Inode) (d : ℕ → Sector) : Type 0 where
    pub allowed : inode.deny_write_cnt ≡ 0
    pub size : inode.disk_inode.length ≡ 36 * n
    pub present :
        (p : ℕ)
        → p < 36 * n
        → sector_of space.sectors layout.words d inode.disk_inode (p / 512) ≢ no_sector
    pub apart : Apart space.sectors layout inode d

  module _ (bytes-of_bytes : (l : List ℕ) → length l ≡ 512 → layout.bytes (layout.of_bytes l) ≡ l)
      (sized : (v : Sector) → length (layout.bytes v) ≡ 512)
      (length-encode : (e : DirEntry) → length (encode e) ≡ 36) where
    entry_bytes : (inode : Inode) (s : S) → ℕ → List ℕ
    entry_bytes inode s j =
        range (byte_at space.sectors layout.words layout.bytes (space.sectors.disk s) inode)
          (36 * j) 36

    read_entry-bytes :
        (n j : ℕ) (inode : Inode) (s : S)
        → inode.disk_inode.length ≡ 36 * n
        → j < n
        → read_entry j (inode, s) ≡ some (decode (entry_bytes inode s j))
    unfolding read_entry of_read entry_bytes
    read_entry-bytes n j inode s size inside =
        let (s', read, _) =
          inode_read_at-range space.sectors layout.words layout.bytes sized 37 inode 36 (36 * j) s
            (omega arith) in
        let all : lesser 36 (inode.disk_inode.length - 36 * j) ≡ 36 = ground (arith, size) in
        rw (read, all) refl

    write_entry-Kept :
        (n i : ℕ) (e : DirEntry) (inode : Inode) (s : S)
        → Whole n inode (space.sectors.disk s)
        → i < n
        → decode (encode e) ≡ e
        → Kept entry_files inode.sector i e (inode, s)
    unfolding read_entry of_read write_entry of_write entry_bytes
    write_entry-Kept n i e inode s w inside coded =
        let room : Room space layout inode 36 (36 * i) (space.sectors.disk s) = record {
          allowed = w.allowed;
          some_bytes = omega arith;
          within = omega (arith, w.size);
          last = w.present (36 * i + 36 - 1) (omega arith);
          apart = w.apart;
        } in
        let (s1, s2, w1, read) =
          inode_read_at-inode_write_at space layout bytes-of_bytes sized 37 inode (encode e) 36
            (36 * i) s (omega arith) (length-encode e) room in
        let (s', w2, bytes) =
          inode_write_at-overlay space layout bytes-of_bytes 37 inode (encode e) 36 (36 * i) s
            (omega arith) room in
        let same : s1 ≡ s' = ap (λ (r : ℕ × Inode × S). r.2) (some-injective _ _ (sym w1 ∙ w2)) in
        let open_dir : (inode.sector == inode.sector) ≡ true = ground arith in
        let wrote : entry_files.write inode.sector i e (inode, s) ≡ (true, (inode, s')) =
          if_true _ _ open_dir ∙ ap (of_write (inode, s)) w2 in
        let after : (entry_files.write inode.sector i e (inode, s)).1 ≡ (inode, s') =
          ap (λ (r : Bool × (Inode × S)). r.1) wrote in
        let seen : (j : ℕ) (t : S)
            → entry_files.read inode.sector j (inode, t) ≡ read_entry j (inode, t) =
          λ j t. if_true _ _ open_dir in
        record {
          written =
              ap (entry_files.read inode.sector i) after
              ∙ seen i s'
              ∙ ap (λ t. read_entry i (inode, t)) (sym same)
              ∙ ap of_read read
              ∙ ap some coded;
          before = λ j b.
              ap (entry_files.read inode.sector j) after
              ∙ seen j s'
              ∙ read_entry-bytes n j inode s' w.size (omega arith)
              ∙ ap (λ l. some (decode l))
                  (range-congr _ _ (36 * j) (36 * j) 36 (λ k c.
                    let outside : (leb (36 * i) (36 * j + k) && ltb (36 * j + k) (36 * i + 36))
                        ≡ false =
                      ground arith in
                    bytes (36 * j + k) (omega (arith, w.size)) ∙ if_false _ _ outside))
              ∙ sym (read_entry-bytes n j inode s w.size (omega arith))
              ∙ sym (seen j s);
        }

    -- In a directory of `n` entries, all of whose bytes have sectors of their own, which are not those
    -- of its index blocks, and to which writing is not denied: if the entry 0, of the parent, is in use
    -- and some entry is free, then a file (not a directory) that `dir_add` added is found again by
    -- `lookup`, with the sector that was given. An entry takes 36 bytes, those of the new entry stand
    -- for it again when they are read, and a sector holds 512 bytes and gives back what is put into it.
    pub lookup-dir_add :
        (unset : DirEntry) (fuel : ℕ) (name : Str) (sector : ℕ) (inode : Inode) (n k : ℕ) (s : S)
        (st' : Inode × S) (parent free : DirEntry)
        → Whole n inode (space.sectors.disk s)
        → decode (encode (entry_of sector name)) ≡ entry_of sector name
        → read_entry 0 (inode, s) ≡ some parent
        → parent.in_use ≡ true
        → k < n
        → read_entry k (inode, s) ≡ some free
        → free.in_use ≡ false
        → dir_add entry_files unset fuel inode.sector name sector false (inode, s)
          ≡ some (true, st')
        → (i : ℕ) × (lookup entry_files unset fuel inode.sector name st'
            ≡ some (some (entry_of sector name, i)))
    lookup-dir_add unset fuel name sector inode n k s st' parent free w coded first on inside there
          off added =
        let open_dir : (inode.sector == inode.sector) ≡ true = ground arith in
        dir_add-found entry_files unset fuel inode.sector name sector (inode, s) st' parent
          (if_true _ _ open_dir ∙ first) on
          (λ i slot.
            let (found, _) =
              slot_from-Slot entry_files unset inode.sector (inode, s) fuel 0 i slot in
            let early : i ≤ k = elim (dec_lt k i) [
              | no late ↦ omega (arith, late)
              | yes lt ↦
                  let (c, read, used) = found.used k (omega arith) lt in
                  let one : free ≡ c =
                    some-injective free c (sym (if_true _ _ open_dir ∙ there) ∙ read) in
                  absurd (false≢true (sym off ∙ ap (λ (x : DirEntry). x.in_use) one ∙ used))
            ] in
            write_entry-Kept n i (entry_of sector name) inode s w (omega (arith, early)) coded)
          added
