-- ===== src/Fs/Inode.antt =====
-- Inodes (a3/fs/inode.h and a3/fs/inode.c): where the sectors of a file are, and reading it.
pub mod Chunks
pub mod Index
pub mod Listing
pub mod Reading
use comp310_w.Prelude.{
  ℕ, zero, suc, ◌+◌, ◌-◌, ◌*◌, ◌/◌, ◌%◌, ◌^◌, ltb, ◌==◌, if◌then◌else◌, ◌&&◌, Bool, Option, none,
  some, List, [], ◌++◌, get_or,
}
use comp310_w.Prelude.Int.{ℤ, pos, negsuc}
use comp310_w.Prelude.Ranges.{range, take, drop}
use comp310_w.Fs.Sectors.{Sectors}

abbrev pub direct_blocks_count : ℕ
direct_blocks_count = 123

abbrev pub indirect_blocks_per_sector : ℕ
indirect_blocks_per_sector = 128

abbrev pub block_sector_size : ℕ
block_sector_size = 512

-- -1 as a `block_sector_t`
abbrev pub no_sector : ℕ
no_sector = 2 ^ 32 - 1

-- `struct inode_disk`
pub record InodeDisk : Type 0 where
  pub direct_blocks : List ℕ
  pub indirect_block : ℕ
  pub doubly_indirect_block : ℕ
  pub is_dir : Bool
  pub length : ℕ
  pub magic : ℕ

-- `struct inode`
pub record Inode : Type 0 where
  pub sector : ℕ
  pub open_cnt : ℕ
  pub removed : Bool
  pub deny_write_cnt : ℕ
  pub disk_inode : InodeDisk

-- `DIV_ROUND_UP(size, BLOCK_SECTOR_SIZE)`
abbrev pub bytes_to_sectors : ℕ → ℕ
bytes_to_sectors size = (size + block_sector_size - 1) / block_sector_size

abbrev pub lesser : ℕ → ℕ → ℕ
lesser a b = if ltb a b then a else b

-- The array `blocks` of an indirect block is the words of its sector.
module _ {S Sector : Type 0} (sectors : Sectors S Sector) (words : Sector → List ℕ) where
  unfoldable pub index_to_sector : InodeDisk → ℕ → S → ℕ × S
  index_to_sector idisk index s =
      let (block, s1) = sectors.read idisk.indirect_block s in
      let (first, s2) = sectors.read idisk.doubly_indirect_block s in
      let beyond = index - (direct_blocks_count + indirect_blocks_per_sector) in
      let (second, s3) =
        sectors.read (get_or (words first) (beyond / indirect_blocks_per_sector) 0) s2 in
      if ltb index direct_blocks_count
      then (get_or idisk.direct_blocks index 0, s)
      else if ltb index (direct_blocks_count + indirect_blocks_per_sector)
      then (get_or (words block) (index - direct_blocks_count) 0, s1)
      else if ltb index (
          direct_blocks_count
          + indirect_blocks_per_sector
          + indirect_blocks_per_sector * indirect_blocks_per_sector)
      then (get_or (words second) (beyond % indirect_blocks_per_sector) 0, s3)
      else (no_sector, s)

  unfoldable pub byte_to_sector : Inode → ℤ → S → ℕ × S
  byte_to_sector inode (pos p) s =
      if ltb p inode.disk_inode.length
      then index_to_sector inode.disk_inode (p / block_sector_size) s
      else (no_sector, s)
  byte_to_sector inode (negsuc n) s = (no_sector, s)

  -- The rounds of the outer loop over the first-level block in `get_inode_data_sectors`.
  unfoldable pub second_level : ℕ → ℕ → ℕ → List ℕ → List ℕ → S → List ℕ × S
  second_level zero i num_sectors first result s = (result, s)
  second_level (suc n) i num_sectors first result s =
      let subsize = lesser num_sectors indirect_blocks_per_sector in
      let (block, s') = sectors.read (get_or first i 0) s in
      second_level n (i + 1) (num_sectors - subsize) first
        (result ++ range (λ j. get_or (words block) j 0) 0 subsize) s'

  -- `sectors[cur_i] = ...; cur_i += 1` appends to the result. The second and the third step of
  -- `get_inode_data_sectors`, for `l` sectors:
  unfoldable pub single_level : InodeDisk → ℕ → List ℕ → S → List ℕ × S
  single_level idisk l result s =
      let (block, s') = sectors.read idisk.indirect_block s in
      if ltb 0 l then (result ++ range (λ i. get_or (words block) i 0) 0 l, s') else (result, s)

  unfoldable pub double_level : InodeDisk → ℕ → List ℕ → S → List ℕ × S
  double_level idisk l result s =
      let (first, s') = sectors.read idisk.doubly_indirect_block s in
      let rounds = (l + indirect_blocks_per_sector - 1) / indirect_blocks_per_sector in
      if ltb 0 l then second_level rounds 0 l (words first) result s' else (result, s)

  unfoldable pub get_inode_data_sectors : InodeDisk → S → List ℕ × S
  get_inode_data_sectors idisk s =
      let num_sectors = bytes_to_sectors idisk.length in
      let l1 = lesser num_sectors direct_blocks_count in
      let direct = range (λ i. get_or idisk.direct_blocks i 0) 0 l1 in
      let l2 = lesser (num_sectors - l1) indirect_blocks_per_sector in
      let (single, s') = single_level idisk l2 direct s in
      let l3 =
        lesser (num_sectors - l1 - l2) (indirect_blocks_per_sector * indirect_blocks_per_sector) in
      double_level idisk l3 single s'

-- How many bytes one round of the loops of `inode_read_at` and `inode_write_at` moves. It is 0
-- where the code's signed number is not positive.
abbrev pub chunk_size : Inode → ℕ → ℕ → ℕ
chunk_size inode size offset =
    let sector_left = block_sector_size - offset % block_sector_size in
    lesser size (lesser (inode.disk_inode.length - offset) sector_left)

-- The bytes of a sector.
module _ {S Sector : Type 0} (sectors : Sectors S Sector) (words : Sector → List ℕ)
    (bytes : Sector → List ℕ) where
  -- The bytes that one round reads, from a whole sector or through the bounce buffer.
  abbrev pub chunk_of : ℕ → ℕ → Sector → List ℕ
  chunk_of sector_ofs chunk v =
      if (sector_ofs == 0) && (chunk == block_sector_size)
      then bytes v
      else take chunk (drop sector_ofs (bytes v))

  -- The loop of `inode_read_at`. The test `sector_idx < 0` is of an unsigned number and never
  -- holds. The result is `bytes_read` and what is in the buffer up to there.
  unfoldable pub read_loop : ℕ → Inode → ℕ → ℕ → ℕ → List ℕ → S → Option (ℕ × List ℕ × S)
  read_loop zero inode size offset bytes_read buffer s = none
  read_loop (suc k) inode size offset bytes_read buffer s =
      let (sector_idx, s1) = byte_to_sector sectors words inode (pos offset) s in
      let chunk = chunk_size inode size offset in
      let (v, s2) = sectors.read sector_idx s1 in
      let further =
        read_loop k inode (size - chunk) (offset + chunk) (bytes_read + chunk)
          (buffer ++ chunk_of (offset % block_sector_size) chunk v) s2 in
      if size == 0
      then some (bytes_read, buffer, s)
      else if chunk == 0
      then some (bytes_read, buffer, s1)
      else further

  unfoldable pub inode_read_at : ℕ → Inode → ℕ → ℕ → S → Option (ℕ × List ℕ × S)
  inode_read_at fuel inode size offset s = read_loop fuel inode size offset 0 [] s
