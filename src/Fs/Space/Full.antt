-- ===== src/Fs/Space/Full.antt =====
-- Growing a file when the free map has no sector left (inode_reserve_indirect of a3/fs/inode.c).
use mathlib.Core.Path.{subst}
use comp310_w.Prelude.{
  ℕ, suc, ◌+◌, ◌-◌, ◌/◌, Bool, false, ◌==◌, true, Option, none, sym, if_true, List, get_or, set,
  replicate, get_or-replicate, ◌≡◌, refl, ◌∙◌, ap, arith,
}
use comp310_w.Prelude.Update.{update}
use comp310_w.Fs.Sectors.{Sectors}
use comp310_w.Fs.FreeMap.{Bitmap, IsBitmap, State, bitmap_error, free_map_allocate}
use comp310_w.Fs.Storage.{storage}
use comp310_w.Fs.Inode.{lesser}
use comp310_w.Fs.Space.{
  Space, reserve_sector, reserve_block, reserve_entries, inode_reserve_indirect,
}

module _ {S Sector : Type 0} (space : Space S Sector) (words : Sector → List ℕ)
    (of_words : List ℕ → Sector) (zeros : Sector)
    -- In a full state an allocation fails and leaves the disk as it is, and neither it nor the disk
    -- makes room.
    (IsFull : S → Type 0) (allocate-none : (s : S) → IsFull s → (space.allocate s).0 ≡ none)
    (allocate-IsFull : (s : S) → IsFull s → IsFull ((space.allocate s).1))
    (disk-allocate : (s : S)
      → IsFull s
      → space.sectors.disk ((space.allocate s).1) ≡ space.sectors.disk s)
    (read-IsFull : (x : ℕ) (s : S) → IsFull s → IsFull ((space.sectors.read x s).1))
    (write-IsFull : (x : ℕ) (v : Sector) (s : S) → IsFull s → IsFull (space.sectors.write x v s))
    (words-zeros : words zeros ≡ replicate 128 0) where
  reserve_sector-full :
      (s : S)
      → IsFull s
      → reserve_sector space words of_words zeros 0 s ≡ (false, 0, (space.allocate s).1)
  unfolding reserve_sector
  reserve_sector-full s f = rw (allocate-none s f) refl

  reserve_block-full :
      (s : S)
      → IsFull s
      → reserve_block space words of_words zeros 0 s
        ≡ (0, space.sectors.write 0 zeros ((space.allocate s).1))
  unfolding reserve_block
  reserve_block-full s f = rw (allocate-none s f) refl

  -- The loop ends at the first entry that cannot be filled.
  reserve_entries-first :
      (below : ℕ → ℕ → S → Bool × ℕ × S) (unit n i num : ℕ) (blocks : List ℕ) (s s' : S) (e : ℕ)
      → below (lesser num unit) (get_or blocks i 0) s ≡ (false, e, s')
      → reserve_entries space words of_words zeros below unit (suc n) i num blocks s
        ≡ (false, set blocks i e, s')
  unfolding reserve_entries
  reserve_entries-first below unit n i num blocks s s' e h = rw h refl

  reserve_indirect-IsFull :
      (num_sectors : ℕ) (s : S)
      → IsFull s
      → ((inode_reserve_indirect space words of_words zeros 1 (suc num_sectors) 0 s).0 ≡ false)
        × (space.sectors.disk
              ((inode_reserve_indirect space words of_words zeros 1 (suc num_sectors) 0 s).2)
            ≡ update (space.sectors.disk s) 0 zeros)
  unfolding inode_reserve_indirect
  reserve_indirect-IsFull num s f =
      let s1 = space.sectors.write 0 zeros ((space.allocate s).1) in
      let block = space.sectors.read 0 s1 in
      let f2 : IsFull block.1 =
        read-IsFull 0 s1 (write-IsFull 0 zeros ((space.allocate s).1) (allocate-IsFull s f)) in
      let zeroed : space.sectors.disk s1 ≡ update (space.sectors.disk s) 0 zeros =
        space.sectors.disk-write 0 zeros ((space.allocate s).1)
        ∙ ap (λ d. update d 0 zeros) (disk-allocate s f) in
      let content : block.0 ≡ zeros =
        space.sectors.read-disk 0 s1 ∙ ap (λ (d : ℕ → Sector). d 0) zeroed in
      let no_entry : get_or (words (block.0)) 0 0 ≡ 0 =
        ap (λ v. get_or (words v) 0 0) content
        ∙ ap (λ ws. get_or ws 0 0) words-zeros
        ∙ get_or-replicate 128 0 0 in
      let rounds : (suc num + 1 - 1) / 1 ≡ suc num = omega arith in
      let ends =
        reserve_entries-first (λ num entry s. reserve_sector space words of_words zeros entry s) 1
          num 0 (suc num) (words (block.0)) (block.1) ((space.allocate (block.1)).1) 0
          (rw no_entry (reserve_sector-full (block.1) f2)) in
      rw (reserve_block-full s f, rounds, ends)
        (refl, disk-allocate (block.1) f2 ∙ space.sectors.disk-read 0 s1 ∙ zeroed)

-- The scan finds no free sector.
abbrev pub NoneFree : {B W : Type 0} → Bitmap B W → State B W → Type 0
NoneFree bitmap st = (bitmap.scan_and_flip st.free_map 0 1 false).0 ≡ bitmap_error

module _ {B W Sector : Type 0} (bitmap : Bitmap B W) (laws : IsBitmap bitmap)
    (disk : Sectors W Sector) (words : Sector → List ℕ) (of_words : List ℕ → Sector)
    (zeros : Sector) where
  allocate-NoneFree :
      (st : State B W) → NoneFree bitmap st → free_map_allocate bitmap 1 st ≡ (none, st)
  unfolding free_map_allocate
  allocate-NoneFree st f =
      let same = laws.scan-error st.free_map 0 1 false f in
      let found : ((bitmap.scan_and_flip st.free_map 0 1 false).0 == bitmap_error) ≡ true =
        ap (λ k. k == bitmap_error) f ∙ refl in
      if_true _ _ found ∙ ap (λ (b : B). (none, record st { free_map = b })) same

  -- Growing a file into its indirect block, which it does not have (the entry is 0), when the scan of
  -- the free map finds no free sector: `inode_reserve_indirect` fails for any number of sectors above
  -- 0, and writes zeros over the sector 0, the inode of the free map, and over no other sector. The
  -- words of a sector of zeros are 128 zeros, and the scan of the bitmap changes nothing if it fails.
  pub inode_reserve_indirect-full :
      (num_sectors : ℕ) (st : State B W)
      → words zeros ≡ replicate 128 0
      → NoneFree bitmap st
      → let grown =
          inode_reserve_indirect
            (storage bitmap disk)
            words
            of_words
            zeros
            1
            (suc num_sectors)
            0
            st in
        (grown.0 ≡ false) × (disk.disk grown.2.files ≡ update (disk.disk st.files) 0 zeros)
  inode_reserve_indirect-full num st words-zeros f =
      let failed = allocate-NoneFree in
      reserve_indirect-IsFull (storage bitmap disk) words of_words zeros (NoneFree bitmap)
        (λ s f. ap (λ (r : Option ℕ × State B W). r.0) (failed s f))
        (λ s f.
          subst (NoneFree bitmap) (sym (ap (λ (r : Option ℕ × State B W). r.1) (failed s f))) f)
        (λ s f. ap (λ (r : Option ℕ × State B W). disk.disk r.1.files) (failed s f)) (λ x s f. f)
        (λ x v s f. f) words-zeros num st f
