-- ===== src/Fs/Inode/Index.antt =====
-- Where the sectors of a file are (a3/fs/inode.c).
use comp310_w.Prelude.{
  ℕ, ◌+◌, ◌-◌, ◌*◌, ◌/◌, ◌%◌, ◌≤◌, ◌<◌, ltb, if◌then◌else◌, true, false, List, get_or, ◌≡◌, refl,
  ◌∙◌, ap, inl, inr, Bool-cases, if_true, if_false, arith,
}
use comp310_w.Prelude.Int.{pos}
use comp310_w.Fs.Sectors.{Sectors}
use comp310_w.Fs.Inode.{
  block_sector_size, no_sector, InodeDisk, bytes_to_sectors, index_to_sector, byte_to_sector, Inode,
}

-- The number of sectors is the least one that has room for the bytes.
pub bytes_to_sectors-least :
    (size : ℕ)
    → (size ≤ bytes_to_sectors size * block_sector_size)
      × (bytes_to_sectors size * block_sector_size < size + block_sector_size)
bytes_to_sectors-least size = (omega arith, omega arith)

module _ {S Sector : Type 0} (sectors : Sectors S Sector) (words : Sector → List ℕ) where
  -- The sector of an index, read off the disk.
  abbrev pub sector_of : (ℕ → Sector) → InodeDisk → ℕ → ℕ
  sector_of d idisk index =
      let beyond = index - 251 in
      if ltb index 123
      then get_or idisk.direct_blocks index 0
      else if ltb index 251
      then get_or (words (d idisk.indirect_block)) (index - 123) 0
      else if ltb index 16635
      then get_or (words (d (get_or (words (d idisk.doubly_indirect_block)) (beyond / 128) 0)))
          (beyond % 128) 0
      else no_sector

  -- The entries of the doubly indirect block, whose first level is given.
  abbrev pub double_of : (ℕ → Sector) → List ℕ → ℕ → ℕ
  double_of d first k = get_or (words (d (get_or first (k / 128) 0))) (k % 128) 0

  -- A read in a state that stands for the disk of another.
  pub read-again :
      (y : ℕ) (s s1 : S)
      → sectors.disk s1 ≡ sectors.disk s
      → ((sectors.read y s1).0 ≡ sectors.disk s y)
        × (sectors.disk ((sectors.read y s1).1) ≡ sectors.disk s)
  read-again y s s1 same =
      (sectors.read-disk y s1 ∙ ap (λ (d : ℕ → Sector). d y) same, sectors.disk-read y s1 ∙ same)

  pub index_to_sector-sector_of :
      (idisk : InodeDisk) (index : ℕ) (s : S)
      → ((index_to_sector sectors words idisk index s).0 ≡ sector_of (sectors.disk s) idisk index)
        × (sectors.disk ((index_to_sector sectors words idisk index s).1) ≡ sectors.disk s)
  unfolding index_to_sector
  index_to_sector-sector_of idisk index s = elim (Bool-cases (ltb index 123)) [
    | inl e ↦ rw e (refl, refl)
    | inr e ↦ elim (Bool-cases (ltb index 251)) [
      | inl e2 ↦
          rw (e, e2)
            (
              ap (λ v. get_or (words v) (index - 123) 0) (sectors.read-disk _ s),
              sectors.disk-read _ s,
            )
      | inr e2 ↦ elim (Bool-cases (ltb index 16635)) [
        | inl e3 ↦
            let q = (index - 251) / 128 in
            let first = sectors.read idisk.doubly_indirect_block s in
            let (again, same) =
              read-again (get_or (words (first.0)) q 0) s (first.1) (sectors.disk-read _ s) in
            let entry = λ (v : Sector). get_or (words v) ((index - 251) % 128) 0 in
            rw (e, e2, e3)
              (
                ap entry again
                    ∙ ap (λ v. entry (sectors.disk s (get_or (words v) q 0)))
                        (sectors.read-disk _ s),
                same,
              )
        | inr e3 ↦ rw (e, e2, e3) (refl, refl)
      ]
    ]
  ]

  module _ (d : ℕ → Sector) (idisk : InodeDisk) where
    pub sector_of_direct : (k : ℕ) → k < 123 → sector_of d idisk k ≡ get_or idisk.direct_blocks k 0
    sector_of_direct k h = let near : ltb k 123 ≡ true = ground arith in if_true _ _ near

    pub sector_of_single :
        (k : ℕ)
        → k < 128
        → sector_of d idisk (123 + k) ≡ get_or (words (d idisk.indirect_block)) k 0
    sector_of_single k h =
        let e : 123 + k - 123 ≡ k = omega arith in
        let far : ltb (123 + k) 123 ≡ false = ground arith in
        let near : ltb (123 + k) 251 ≡ true = ground arith in
        if_false _ _ far
        ∙ if_true _ _ near
        ∙ ap (λ i. get_or (words (d idisk.indirect_block)) i 0) e

    pub sector_of_double :
        (k : ℕ)
        → k < 16384
        → sector_of d idisk (251 + k) ≡ double_of d (words (d idisk.doubly_indirect_block)) k
    sector_of_double k h =
        let e : 251 + k - 251 ≡ k = omega arith in
        let far : ltb (251 + k) 123 ≡ false = ground arith in
        let far2 : ltb (251 + k) 251 ≡ false = ground arith in
        let near : ltb (251 + k) 16635 ≡ true = ground arith in
        if_false _ _ far
        ∙ if_false _ _ far2
        ∙ if_true _ _ near
        ∙ ap (double_of d (words (d idisk.doubly_indirect_block))) e

  pub byte_to_sector-disk :
      (inode : Inode) (p : ℕ) (s : S)
      → sectors.disk ((byte_to_sector sectors words inode (pos p) s).1) ≡ sectors.disk s
  unfolding byte_to_sector
  byte_to_sector-disk inode p s = elim (Bool-cases (ltb p inode.disk_inode.length)) [
    | inl e ↦ rw e ((index_to_sector-sector_of inode.disk_inode (p / 512) s).1)
    | inr e ↦ rw e refl
  ]

  pub byte_to_sector-sector_of :
      (inode : Inode) (p : ℕ) (s : S)
      → p < inode.disk_inode.length
      → (byte_to_sector sectors words inode (pos p) s).0
        ≡ sector_of (sectors.disk s) inode.disk_inode (p / 512)
  unfolding byte_to_sector
  byte_to_sector-sector_of inode p s h =
      let inside : ltb p inode.disk_inode.length ≡ true = ground arith in
      rw inside ((index_to_sector-sector_of inode.disk_inode (p / 512) s).0)
