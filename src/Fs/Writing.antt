-- ===== src/Fs/Writing.antt =====
-- Writing to a file (inode_write_at, inode_deny_write and inode_allow_write of a3/fs/inode.c).
pub mod Round
pub mod Apart
pub mod Bytes
pub mod Loop
pub mod Contents
use comp310_w.Prelude.{
  ℕ, zero, suc, ◌+◌, ◌-◌, ◌%◌, leb, ltb, ◌==◌, if◌then◌else◌, ◌&&◌, ◌||◌, not, Bool, true, false,
  Option, none, some, List, get_or,
}
use comp310_w.Prelude.Int.{ℤ, pos, negsuc, pred_int}
use comp310_w.Prelude.Ranges.{range}
use comp310_w.Fs.Sectors.{Sectors}
use comp310_w.Fs.Inode.{
  block_sector_size, no_sector, InodeDisk, Inode, lesser, chunk_size, byte_to_sector,
}
use comp310_w.Fs.Space.{Space, inode_reserve}

-- The `n` bytes of an array after memcpy of `chunk` bytes of another, from `from` on, to `ofs`.
abbrev pub memcpy : ℕ → List ℕ → ℕ → List ℕ → ℕ → ℕ → List ℕ
memcpy n dest ofs source from chunk =
    range
      (λ i.
        if leb ofs i && ltb i (ofs + chunk)
        then get_or source (from + (i - ofs)) 0
        else get_or dest i 0)
      0 n

-- How structs and bytes lie in a sector, both ways.
pub record Layout (Sector : Type 0) : Type 0 where
  pub words : Sector → List ℕ
  pub of_words : List ℕ → Sector
  pub bytes : Sector → List ℕ
  pub of_bytes : List ℕ → Sector
  pub of_inode : InodeDisk → Sector
  pub zeros : Sector

module _ {S Sector : Type 0} (sectors : Sectors S Sector) (layout : Layout Sector) where
  -- What one round of the loop of `inode_write_at` puts in the sector: the caller's bytes alone, or
  -- with what the sector held around them, or with zeros.
  unfoldable pub new_sector : ℕ → ℕ → List ℕ → ℕ → Sector → Sector
  new_sector sector_ofs chunk buffer bytes_written old =
      let sector_left = block_sector_size - sector_ofs in
      let bounce =
        if ltb 0 sector_ofs || ltb chunk sector_left
        then layout.bytes old
        else layout.bytes layout.zeros in
      if (sector_ofs == 0) && (chunk == block_sector_size)
      then layout.of_bytes (range (λ i. get_or buffer i 0) bytes_written block_sector_size)
      else layout.of_bytes (memcpy block_sector_size bounce sector_ofs buffer bytes_written chunk)

  -- The state in which a round writes: the sector is read first only if the chunk does not fill it.
  unfoldable pub bounced : ℕ → ℕ → ℕ → S → S
  bounced sector_idx sector_ofs chunk s =
      if ltb 0 sector_ofs || ltb chunk (block_sector_size - sector_ofs)
      then (sectors.read sector_idx s).1
      else s

  -- The loop of `inode_write_at`, with the number of bytes written.
  unfoldable pub write_loop : ℕ → Inode → List ℕ → ℕ → ℕ → ℕ → S → Option (ℕ × S)
  write_loop zero inode buffer size offset bytes_written s = none
  write_loop (suc k) inode buffer size offset bytes_written s =
      let (sector_idx, s1) = byte_to_sector sectors layout.words inode (pos offset) s in
      let sector_ofs = offset % block_sector_size in
      let chunk = chunk_size inode size offset in
      let old = (sectors.read sector_idx s1).0 in
      let s2 = bounced sector_idx sector_ofs chunk s1 in
      let new = new_sector sector_ofs chunk buffer bytes_written old in
      let further =
        write_loop k inode buffer (size - chunk) (offset + chunk) (bytes_written + chunk)
          (sectors.write sector_idx new s2) in
      if size == 0
      then some (bytes_written, s)
      else if chunk == 0
      then some (bytes_written, s1)
      else further

module _ {S Sector : Type 0} (space : Space S Sector) (layout : Layout Sector) where
  -- The extension of the file when its end is behind the last byte: the inode in memory is changed
  -- by `inode_reserve` even if that fails.
  unfoldable pub extend : Inode → ℕ → S → Bool × Inode × S
  extend inode length s =
      let (success, idisk, s') =
        inode_reserve space layout.words layout.of_words layout.zeros inode.disk_inode length s in
      let longer = record idisk { length = length } in
      if success
      then (
        true,
        record inode { disk_inode = longer },
        space.sectors.write inode.sector (layout.of_inode longer) s',
      )
      else (false, record inode { disk_inode = idisk }, s')

  -- The first half of `inode_write_at`: it extends the file if the last byte has no sector.
  unfoldable pub prepare : Inode → ℕ → ℕ → S → Bool × Inode × S
  prepare inode size offset s =
      let (last, s') =
        byte_to_sector space.sectors layout.words inode (pred_int (offset + size)) s in
      if last == no_sector then extend inode (offset + size) s' else (true, inode, s')

  -- The second half, with the number of bytes written, the inode in memory, and the state.
  unfoldable pub finish : ℕ → List ℕ → ℕ → ℕ → Bool × Inode × S → Option (ℕ × Inode × S)
  finish fuel buffer size offset (false, inode, s) = some (0, inode, s)
  finish fuel buffer size offset (true, inode, s) =
      elim (write_loop space.sectors layout fuel inode buffer size offset 0 s) [
        | none ↦ none
        | some (n, s') ↦ some (n, inode, s')
      ]

  unfoldable pub inode_write_at : ℕ → Inode → List ℕ → ℕ → ℕ → S → Option (ℕ × Inode × S)
  inode_write_at fuel inode buffer size offset s =
      if not (inode.deny_write_cnt == 0)
      then some (0, inode, s)
      else finish fuel buffer size offset (prepare inode size offset s)

-- The counters of the openers that forbid writing.
abbrev pub inode_deny_write : Inode → Inode
inode_deny_write inode = record inode { deny_write_cnt = inode.deny_write_cnt + 1 }

abbrev pub inode_allow_write : Inode → Inode
inode_allow_write inode = record inode { deny_write_cnt = inode.deny_write_cnt - 1 }
