-- ===== src/Fs/Space.antt =====
-- Growing and freeing files (inode_reserve, inode_deallocate and what they call, a3/fs/inode.c).
pub mod Reserved
pub mod Full
use comp310_w.Prelude.{
  ℕ, zero, suc, ◌+◌, ◌-◌, ◌*◌, ◌/◌, ltb, ◌==◌, if◌then◌else◌, Bool, true, false, Option, none, some,
  List, [], ◌∷◌, get_or, set,
}
use comp310_w.Fs.Sectors.{Sectors}
use comp310_w.Fs.Inode.{
  direct_blocks_count, indirect_blocks_per_sector, InodeDisk, bytes_to_sectors, lesser,
}

-- The disk together with the free map: `free_map_allocate(1, ...)` and `free_map_release(..., 1)`.
pub record Space (S Sector : Type 0) : Type 0 where
  pub sectors : Sectors S Sector
  pub allocate : S → Option ℕ × S
  pub release : ℕ → S → S

-- The array `blocks` of an indirect block is the words of its sector, and back.
module _ {S Sector : Type 0} (space : Space S Sector) (words : Sector → List ℕ)
    (of_words : List ℕ → Sector) (zeros : Sector) where
  -- One entry that must have a sector: whether there is one, the entry, and the state.
  unfoldable pub reserve_sector : ℕ → S → Bool × ℕ × S
  reserve_sector entry s =
      let (found, s') = space.allocate s in
      if entry == 0
      then (elim found [
        | none ↦ (false, entry, s')
        | some x ↦ (true, x, space.sectors.write x zeros s')
      ])
      else (true, entry, s)

  -- An indirect block that must be there. The result of the allocation is not looked at.
  unfoldable pub reserve_block : ℕ → S → ℕ × S
  reserve_block entry s =
      let (found, s') = space.allocate s in
      let block : ℕ = elim found [ none ↦ entry | some x ↦ x ] in
      if entry == 0 then (block, space.sectors.write block zeros s') else (entry, s)

  -- The loop over the entries of a block, which ends at the first that fails; `below` takes the
  -- number of sectors for an entry, the entry and the state.
  unfoldable pub reserve_entries :
      (ℕ → ℕ → S → Bool × ℕ × S) → ℕ → ℕ → ℕ → ℕ → List ℕ → S → Bool × List ℕ × S
  reserve_entries below unit zero i num_sectors blocks s = (true, blocks, s)
  reserve_entries below unit (suc n) i num_sectors blocks s =
      let subsize = lesser num_sectors unit in
      let (ok, entry, s') = below subsize (get_or blocks i 0) s in
      let blocks' = set blocks i entry in
      let rest = reserve_entries below unit n (i + 1) (num_sectors - subsize) blocks' s' in
      if ok then rest else (false, blocks', s')

  -- `level == 1 ? 1 : INDIRECT_BLOCKS_PER_SECTOR`, for the level above the one given
  abbrev pub unit_above : ℕ → ℕ
  unit_above level = if level == 0 then 1 else indirect_blocks_per_sector

  unfoldable pub inode_reserve_indirect : ℕ → ℕ → ℕ → S → Bool × ℕ × S
  inode_reserve_indirect zero num_sectors entry s = reserve_sector entry s
  inode_reserve_indirect (suc level) num_sectors entry s =
      let unit = unit_above level in
      let (block, s1) = reserve_block entry s in
      let (content, s2) = space.sectors.read block s1 in
      let (ok, blocks, s3) =
        reserve_entries (inode_reserve_indirect level) unit ((num_sectors + unit - 1) / unit) 0
          num_sectors (words content) s2 in
      if ok
      then (true, block, space.sectors.write block (of_words blocks) s3)
      else (false, block, s3)

  -- The three steps of `inode_reserve`, each of which may be the last.
  unfoldable pub reserve_direct : ℕ → InodeDisk → S → Bool × InodeDisk × S
  reserve_direct l idisk s =
      let (ok, blocks, s') =
        reserve_entries (λ _ entry s. reserve_sector entry s) 1 l 0 l idisk.direct_blocks s in
      (ok, record idisk { direct_blocks = blocks }, s')

  unfoldable pub reserve_single : ℕ → InodeDisk → S → Bool × InodeDisk × S
  reserve_single l idisk s =
      let (ok, block, s') = inode_reserve_indirect 1 l idisk.indirect_block s in
      (ok, record idisk { indirect_block = block }, s')

  unfoldable pub reserve_double : ℕ → InodeDisk → S → Bool × InodeDisk × S
  reserve_double l idisk s =
      let (ok, block, s') = inode_reserve_indirect 2 l idisk.doubly_indirect_block s in
      (ok, record idisk { doubly_indirect_block = block }, s')

  unfoldable pub inode_reserve : InodeDisk → ℕ → S → Bool × InodeDisk × S
  inode_reserve idisk length s =
      let num_sectors = bytes_to_sectors length in
      let l1 = lesser num_sectors direct_blocks_count in
      let l2 = lesser (num_sectors - l1) indirect_blocks_per_sector in
      let l3 =
        lesser (num_sectors - l1 - l2) (indirect_blocks_per_sector * indirect_blocks_per_sector) in
      let (ok1, d1, s1) = reserve_direct l1 idisk s in
      let (ok2, d2, s2) = reserve_single l2 d1 s1 in
      let (ok3, d3, s3) = reserve_double l3 d2 s2 in
      if ok1
      then if num_sectors - l1 == 0
        then (true, d1, s1)
        else if ok2
        then if num_sectors - l1 - l2 == 0
          then (true, d2, s2)
          else if ok3
          then (num_sectors - l1 - l2 - l3 == 0, d3, s3)
          else (false, d3, s3)
        else (false, d2, s2)
      else (false, d1, s1)

  -- The loop over the entries of a block that is freed.
  unfoldable pub free_entries : (ℕ → ℕ → S → S) → ℕ → ℕ → ℕ → ℕ → List ℕ → S → S
  free_entries below unit zero i num_sectors blocks s = s
  free_entries below unit (suc n) i num_sectors blocks s =
      let subsize = lesser num_sectors unit in
      free_entries below unit n (i + 1) (num_sectors - subsize) blocks
        (below subsize (get_or blocks i 0) s)

  unfoldable pub inode_deallocate_indirect : ℕ → ℕ → ℕ → S → S
  inode_deallocate_indirect zero num_sectors entry s = space.release entry s
  inode_deallocate_indirect (suc level) num_sectors entry s =
      let unit = unit_above level in
      let (content, s') = space.sectors.read entry s in
      space.release entry (
        free_entries (inode_deallocate_indirect level) unit ((num_sectors + unit - 1) / unit) 0
          num_sectors (words content) s')

  unfoldable pub inode_deallocate : InodeDisk → S → S
  inode_deallocate idisk s =
      let num_sectors = bytes_to_sectors idisk.length in
      let l1 = lesser num_sectors direct_blocks_count in
      let l2 = lesser (num_sectors - l1) indirect_blocks_per_sector in
      let l3 =
        lesser (num_sectors - l1 - l2) (indirect_blocks_per_sector * indirect_blocks_per_sector) in
      let s1 = free_entries (λ _ entry s. space.release entry s) 1 l1 0 l1 idisk.direct_blocks s in
      let s2 = if ltb 0 l2 then inode_deallocate_indirect 1 l2 idisk.indirect_block s1 else s1 in
      if ltb 0 l3 then inode_deallocate_indirect 2 l3 idisk.doubly_indirect_block s2 else s2
