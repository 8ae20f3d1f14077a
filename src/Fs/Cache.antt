-- ===== src/Fs/Cache.antt =====
-- The buffer cache (a3/fs/cache.c) over any block device: 64 entries, written back when they are
-- evicted by a clock, or when the cache is closed.
pub mod Agrees
pub mod Flushing
pub mod Eviction
pub mod Coherent
pub mod Closing
use comp310_w.Prelude.{
  ℕ, zero, suc, ◌+◌, ◌%◌, ◌==◌, if◌then◌else◌, ◌&&◌, not, Bool, true, false, Option, none, some,
  List, [], ◌∷◌, get_or, set, replicate, map,
}
use comp310_w.Prelude.Scan.{first_from}

-- `struct buffer_cache_entry_t`
pub record Entry (Sector : Type 0) : Type 0 where
  pub occupied : Bool
  pub disk_sector : ℕ
  pub buffer : Sector
  pub dirty : Bool
  pub access : Bool

-- The array `cache`, the variable `clock` of `buffer_cache_evict`, and the device.
pub record State (Device Sector : Type 0) : Type 0 where
  pub cache : List (Entry Sector)
  pub clock : ℕ
  pub device : Device

abbrev pub buffer_cache_size : ℕ
buffer_cache_size = 64

-- `block_read` and `block_write` of the device, and what a byte array holds before it is written.
module _ {Device Sector : Type 0} (block_read : ℕ → Device → Sector)
    (block_write : ℕ → Sector → Device → Device) (zeros : Sector) where
  abbrev pub blank : Entry Sector
  blank = record {
    occupied = false;
    disk_sector = 0;
    buffer = zeros;
    dirty = false;
    access = false;
  }

  -- `cache[i]`
  abbrev pub at : State Device Sector → ℕ → Entry Sector
  at s i = get_or s.cache i blank

  abbrev pub put : State Device Sector → ℕ → Entry Sector → State Device Sector
  put s i e = record s { cache = set s.cache i e }

  -- The state in which the program starts.
  abbrev pub started : Device → State Device Sector
  started d = record { cache = replicate buffer_cache_size blank; clock = 0; device = d }

  abbrev pub free_entry : Entry Sector → Entry Sector
  free_entry e = record e { occupied = false; dirty = false }

  -- `buffer_cache_init` goes over the whole array.
  unfoldable pub buffer_cache_init : State Device Sector → State Device Sector
  buffer_cache_init s = record s { cache = map free_entry s.cache }

  -- `buffer_cache_flush` on the entry `i`, which is occupied.
  unfoldable pub buffer_cache_flush : ℕ → State Device Sector → State Device Sector
  buffer_cache_flush i s =
      let e = at s i in
      if e.dirty
      then record s {
        cache = set s.cache i (record e { dirty = false });
        device = block_write e.disk_sector e.buffer s.device;
      }
      else s

  -- The loop of `buffer_cache_close` from the index `i` on.
  unfoldable pub close_from : ℕ → ℕ → State Device Sector → State Device Sector
  close_from i zero s = s
  close_from i (suc n) s =
      close_from (i + 1) n (if (at s i).occupied then buffer_cache_flush i s else s)

  unfoldable pub buffer_cache_close : State Device Sector → State Device Sector
  buffer_cache_close s = close_from 0 buffer_cache_size s

  abbrev pub holds : State Device Sector → ℕ → ℕ → Bool
  holds s sector i = (at s i).occupied && ((at s i).disk_sector == sector)

  -- `buffer_cache_lookup`: the index of the entry, or none on a miss.
  unfoldable pub buffer_cache_lookup : ℕ → State Device Sector → Option ℕ
  buffer_cache_lookup sector s = first_from (holds s sector) 0 buffer_cache_size

  -- One step of the clock: the entry gets its second chance.
  abbrev pub advance : State Device Sector → State Device Sector
  advance s = record s {
    cache = set s.cache s.clock (record (at s s.clock) { access = false });
    clock = (s.clock + 1) % buffer_cache_size;
  }

  -- The loop of `buffer_cache_evict`, which stops with `clock` at the slot; `none` means that the
  -- fuel ran out.
  unfoldable pub clock_loop : ℕ → State Device Sector → Option (State Device Sector)
  clock_loop zero s = none
  clock_loop (suc k) s =
      let further = clock_loop k (advance s) in
      if not ((at s s.clock).occupied)
      then some s
      else if (at s s.clock).access
      then further
      else some s

  -- What `buffer_cache_evict` does to the slot: nothing if it is empty.
  unfoldable pub evict_slot : State Device Sector → State Device Sector
  evict_slot s =
      let flushed = buffer_cache_flush s.clock s in
      if (at s s.clock).occupied
      then put flushed s.clock (record (at flushed s.clock) { occupied = false })
      else s

  -- `buffer_cache_evict`: the slot is `cache[clock]` of the state that it leaves.
  unfoldable pub buffer_cache_evict : ℕ → State Device Sector → Option (State Device Sector)
  buffer_cache_evict fuel s = elim (clock_loop fuel s) [
    | none ↦ none
    | some s' ↦ some (evict_slot s')
  ]

  -- The entry that a miss fills in.
  unfoldable pub fill : ℕ → State Device Sector → State Device Sector
  fill sector s = put s s.clock (record (at s s.clock) {
    occupied = true;
    disk_sector = sector;
    dirty = false;
    buffer = block_read sector s.device;
  })

  -- The first half of `buffer_cache_read` and of `buffer_cache_write`: the slot of the sector.
  unfoldable pub find_slot : ℕ → ℕ → State Device Sector → Option (ℕ × State Device Sector)
  find_slot fuel sector s = elim (buffer_cache_lookup sector s) [
    | some i ↦ some (i, s)
    | none ↦ elim (buffer_cache_evict fuel s) [
      | none ↦ none
      | some s' ↦ some (s'.clock, fill sector s')
    ]
  ]

  unfoldable pub buffer_cache_read :
      ℕ → ℕ → State Device Sector → Option (Sector × State Device Sector)
  buffer_cache_read fuel sector s = elim (find_slot fuel sector s) [
    | none ↦ none
    | some (i, s') ↦ some ((at s' i).buffer, put s' i (record (at s' i) { access = true }))
  ]

  unfoldable pub buffer_cache_write :
      ℕ → ℕ → Sector → State Device Sector → Option (State Device Sector)
  buffer_cache_write fuel sector source s = elim (find_slot fuel sector s) [
    | none ↦ none
    | some (i, s') ↦
        some (put s' i (record (at s' i) { access = true; dirty = true; buffer = source }))
  ]
