-- ===== src/Fs/Tests/Inodes.antt =====
-- The theorems about inodes, over the block cache on a device whose sectors are functions from
-- offsets to numbers.
use comp310_w.Prelude.{ℕ, ◌+◌, ◌-◌, ◌≡◌, refl, false, some, List, [], ◌∷◌, arith}
use comp310_w.Prelude.Ranges.{range, length-range}
use comp310_w.Fs.Cache.{started, buffer_cache_init}
use comp310_w.Prelude.Update.{update}
use comp310_w.Fs.Cache.Agrees.{IsDevice}
use comp310_w.Fs.Cache.Closing.{buffer_cache_init-StandsFor}
use comp310_w.Fs.Sectors.{Sectors, Coherent, cache_sectors}
use comp310_w.Fs.Inode.{
  InodeDisk, Inode, lesser, bytes_to_sectors, index_to_sector, get_inode_data_sectors,
  inode_read_at,
}
use comp310_w.Fs.Inode.Listing.{get_inode_data_sectors-index}
use comp310_w.Fs.Inode.Reading.{byte_at, inode_read_at-range}

abbrev Sector : Type 0
Sector = ℕ → ℕ

abbrev Disk : Type 0
Disk = ℕ → Sector

abbrev peek : ℕ → Disk → Sector
peek x d = d x

abbrev poke : ℕ → Sector → Disk → Disk
poke x v d = update d x v

abbrev zeros : Sector
zeros _ = 0

poke-IsDevice : IsDevice peek poke
poke-IsDevice = record { same = λ x v d. ground arith; other = λ x y v d h. ground arith }

abbrev disk : Disk
disk x i = x + i

abbrev State : Type 0
State = Coherent peek poke zeros poke-IsDevice

abbrev sectors : Sectors State Sector
sectors = cache_sectors peek poke zeros poke-IsDevice

abbrev cold : State
cold = (
  buffer_cache_init peek poke zeros (started peek poke zeros disk),
  disk,
  buffer_cache_init-StandsFor peek poke zeros poke-IsDevice (started peek poke zeros disk) refl
      (omega arith),
)

abbrev words : Sector → List ℕ
words v = range v 0 128

abbrev bytes : Sector → List ℕ
bytes v = range v 0 512

-- A file of two sectors.
abbrev on_disk : InodeDisk
on_disk = record {
  direct_blocks = 5 ∷ 9 ∷ [];
  indirect_block = 0;
  doubly_indirect_block = 0;
  is_dir = false;
  length = 600;
  magic = 0;
}

abbrev inode : Inode
inode = record {
  sector = 3;
  open_cnt = 1;
  removed = false;
  deny_write_cnt = 0;
  disk_inode = on_disk;
}

-- 130 sectors, seven of them in the indirect block 20.
abbrev longer : InodeDisk
longer = record on_disk { indirect_block = 20; length = 66560 }

get_inode_data_sectors-index_example :
    ((get_inode_data_sectors sectors words longer cold).0
      ≡ range
          (λ i. (index_to_sector sectors words longer i cold).0)
          0
          (bytes_to_sectors longer.length))
    × (sectors.disk ((get_inode_data_sectors sectors words longer cold).1) ≡ sectors.disk cold)
get_inode_data_sectors-index_example =
    get_inode_data_sectors-index sectors words longer cold (omega arith)

inode_read_at-range_example :
    (s' : State) × (inode_read_at sectors words bytes 201 inode 200 500 cold
      ≡ some (
        lesser 200 (inode.disk_inode.length - 500),
        range
            (byte_at sectors words bytes (sectors.disk cold) inode)
            500
            (lesser 200 (inode.disk_inode.length - 500)),
        s',
      ))
    × (sectors.disk s' ≡ sectors.disk cold)
inode_read_at-range_example =
    inode_read_at-range sectors words bytes (λ v. length-range v 0 512) 201 inode 200 500 cold
      (omega arith)
