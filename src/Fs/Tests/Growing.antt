-- ===== src/Fs/Tests/Growing.antt =====
-- The theorems about writing and growing files, on a disk whose sectors are functions from offsets
-- to numbers, with the next free sector.
use mathlib.Core.Option.{some-injective}
use comp310_w.Prelude.{
  ℕ, suc, ◌+◌, ◌*◌, ◌<◌, ◌≡◌, ◌≢◌, refl, sym, ◌∙◌, ap, ◌==◌, if◌then◌else◌, false, true, some, List,
  [], ◌∷◌, length, replicate, get_or, get_or-replicate, arith, ◌⊎◌, inl, inr,
}
use comp310_w.Prelude.Ranges.{range, length-range, take-range, take-all}
use comp310_w.Prelude.Update.{update}
use comp310_w.Fs.Sectors.{Sectors}
use comp310_w.Fs.Inode.{InodeDisk, Inode, inode_read_at, bytes_to_sectors, lesser}
use comp310_w.Fs.Inode.Index.{sector_of}
use comp310_w.Fs.Inode.Reading.{byte_at}
use comp310_w.Fs.Space.{
  Space, reserve_sector, reserve_entries, reserve_direct, inode_reserve, inode_reserve_indirect,
}
use comp310_w.Fs.Space.Reserved.{Filled, inode_reserve-Filled}
use comp310_w.Fs.Space.Full.{NoneFree, inode_reserve_indirect-full}
use comp310_w.Fs.Tests.Sparing.{Bits, bits, bits-IsBitmap}
use comp310_w.Fs.FreeMap
use comp310_w.Fs.Storage.{storage}
use comp310_w.Prelude.Scan.{first_from}
use comp310_w.Fs.Writing.{Layout, inode_write_at}
use comp310_w.Fs.Writing.Apart.{Apart}
use comp310_w.Fs.Writing.Bytes.{overlay}
use comp310_w.Fs.Writing.Contents.{Room, inode_write_at-overlay, inode_read_at-inode_write_at}

abbrev pub Sector : Type 0
Sector = ℕ → ℕ

-- The sectors, and the last sector that was handed out.
abbrev pub State : Type 0
State = (ℕ → Sector) × ℕ

abbrev pub sectors : Sectors State Sector
sectors = record {
  read = λ x s. (s.0 x, s);
  write = λ x v s. (update (s.0) x v, s.1);
  disk = λ s. s.0;
  read-disk = λ x s. refl;
  disk-read = λ x s. refl;
  disk-write = λ x v s. refl;
}

abbrev pub space : Space State Sector
space = record {
  sectors = sectors;
  allocate = λ s. (some (suc (s.1)), (s.0, suc (s.1)));
  release = λ x s. s;
}

abbrev pub layout : Layout Sector
layout = record {
  words = λ v. range v 0 128;
  of_words = λ l i. get_or l i 0;
  bytes = λ v. range v 0 512;
  of_bytes = λ l i. get_or l i 0;
  of_inode = λ d i. d.length;
  zeros = λ i. 0;
}

pub bytes-of_bytes : (l : List ℕ) → length l ≡ 512 → layout.bytes (layout.of_bytes l) ≡ l
bytes-of_bytes l h = sym (take-range l 0 512 (omega (arith, h))) ∙ take-all l 512 h

pub words-zeros : layout.words layout.zeros ≡ replicate 128 0
unfolding range
words-zeros = refl

abbrev start : State
start = ((λ x i. if x == 0 then 0 else x + i), 30)

-- A file of two sectors.
abbrev on_disk : InodeDisk
on_disk = record {
  direct_blocks = 5 ∷ 9 ∷ [];
  indirect_block = 0;
  doubly_indirect_block = 0;
  is_dir = false;
  length = 600;
  magic = 0;
}

abbrev inode : Inode
inode = record {
  sector = 3;
  open_cnt = 1;
  removed = false;
  deny_write_cnt = 0;
  disk_inode = on_disk;
}

abbrev sec : ℕ → ℕ
sec i = sector_of sectors layout.words (start.0) on_disk i

two_sectors : (i : ℕ) → i * 512 < 600 → (i ≡ 0) ⊎ (i ≡ 1)
two_sectors i h = ground arith

sec-five : (i : ℕ) → i * 512 < 600 → sec i ≡ 5 + 4 * i
sec-five i h = elim (two_sectors i h) [ inl e ↦ rw e refl | inr e ↦ rw e refl ]

no_entry : (q : ℕ) → get_or (layout.words (start.0 0)) q 0 ≡ 0
no_entry q = ap (λ l. get_or l q 0) words-zeros ∙ get_or-replicate 128 q 0

file-Apart : Apart sectors layout inode (start.0)
file-Apart = record {
  distinct = λ i j hi hj e. omega (arith, sym (sec-five i hi) ∙ e ∙ sec-five j hj);
  single = λ i hi e. absurd (omega (arith, sym (sec-five i hi) ∙ e));
  double = λ i hi e. absurd (omega (arith, sym (sec-five i hi) ∙ e));
  second = λ i q hi e. absurd (omega (arith, sym (sec-five i hi) ∙ e ∙ no_entry q));
}

-- Three bytes over the border of the sectors.
file-Room : Room space layout inode 3 510 (start.0)
file-Room = record {
  allowed = refl;
  some_bytes = omega arith;
  within = omega arith;
  last = λ e. absurd (omega (arith, sym (sec-five 1 (omega arith)) ∙ e));
  apart = file-Apart;
}

abbrev buffer : List ℕ
buffer = 7 ∷ 8 ∷ 9 ∷ []

inode_write_at-overlay_example :
    (s' : State) × (inode_write_at space layout 4 inode buffer 3 510 start ≡ some (3, inode, s'))
    × ((p : ℕ)
        → p < 600
        → byte_at sectors layout.words layout.bytes (s'.0) inode p
          ≡ overlay buffer 0 510 3 (byte_at sectors layout.words layout.bytes (start.0) inode) p)
inode_write_at-overlay_example =
    inode_write_at-overlay space layout bytes-of_bytes 4 inode buffer 3 510 start (omega arith)
      file-Room

inode_read_at-inode_write_at_example :
    (s' s'' : State) × (inode_write_at space layout 4 inode buffer 3 510 start
      ≡ some (3, inode, s'))
    × (inode_read_at sectors layout.words layout.bytes 4 inode 3 510 s' ≡ some (3, buffer, s''))
inode_read_at-inode_write_at_example =
    inode_read_at-inode_write_at space layout bytes-of_bytes (λ v. length-range v 0 512) 4 inode
      buffer 3 510 start (omega arith) refl file-Room

-- An inode with the sector of index 1 alone.
abbrev sparse : InodeDisk
sparse = record on_disk { direct_blocks = 0 ∷ 9 ∷ replicate 121 0 }

sparse-grown :
    (inode_reserve space layout.words layout.of_words layout.zeros sparse 1500 start).0 ≡ true
unfolding inode_reserve reserve_direct reserve_entries reserve_sector
sparse-grown = refl

positive : (s : State) → (space.allocate s).0 ≢ some 0
positive s e =
    let zero_sector : suc (s.1) ≡ 0 = some-injective (suc (s.1)) 0 e in
    absurd (omega (arith, zero_sector))

inode_reserve-Filled_example : Filled 0 (lesser (bytes_to_sectors 1500) 123) sparse.direct_blocks (
    (inode_reserve space layout.words layout.of_words layout.zeros sparse 1500
      start).1.direct_blocks)
inode_reserve-Filled_example =
    inode_reserve-Filled space layout.words layout.of_words layout.zeros positive sparse 1500 start
      refl sparse-grown

-- Every bit is set.
abbrev crowded : FreeMap.State Bits State
crowded = record { free_map = λ x. true; file = true; files = start }

crowded-NoneFree : NoneFree bits crowded
unfolding first_from
crowded-NoneFree = refl

inode_reserve_indirect-full_example :
    ((inode_reserve_indirect
        (storage bits sectors)
        layout.words
        layout.of_words
        layout.zeros
        1
        (suc 4)
        0
        crowded).0
      ≡ false)
    × ((inode_reserve_indirect
          (storage bits sectors)
          layout.words
          layout.of_words
          layout.zeros
          1
          (suc 4)
          0
          crowded).2.files.0
        ≡ update (start.0) 0 layout.zeros)
inode_reserve_indirect-full_example =
    inode_reserve_indirect-full bits bits-IsBitmap sectors layout.words layout.of_words layout.zeros
      4 crowded words-zeros crowded-NoneFree
