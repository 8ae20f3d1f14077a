-- ===== src/Fs/Storage.antt =====
-- The free map (a3/fs/free-map.c) and the disk together offer what the inodes (a3/fs/inode.c) use.
use comp310_w.Fs.Sectors.{Sectors}
use comp310_w.Fs.FreeMap.{Bitmap, State, free_map_allocate, free_map_release}
use comp310_w.Fs.Space.{Space}

module _ {B W Sector : Type 0} (bitmap : Bitmap B W) (disk : Sectors W Sector) where
  -- The sectors, with the free map beside them.
  abbrev pub mapped_sectors : Sectors (State B W) Sector
  mapped_sectors = record {
    read = λ x st. let (v, files) = disk.read x st.files in (v, record st { files = files });
    write = λ x v st. record st { files = disk.write x v st.files };
    disk = λ st. disk.disk st.files;
    read-disk = λ x st. disk.read-disk x st.files;
    disk-read = λ x st. disk.disk-read x st.files;
    disk-write = λ x v st. disk.disk-write x v st.files;
  }

  -- `free_map_allocate(1, ...)` and `free_map_release(..., 1)`
  abbrev pub storage : Space (State B W) Sector
  storage = record {
    sectors = mapped_sectors;
    allocate = free_map_allocate bitmap 1;
    release = λ sector st. free_map_release bitmap sector 1 st;
  }
