-- ===== src/Fs/Sectors.antt =====
-- What the inodes (a3/fs/inode.c) use of the buffer cache (a3/fs/cache.c), and that it offers that.
use comp310_w.Prelude.{ℕ, ◌≡◌, refl, arith}
use comp310_w.Fs.Cache.{State}
use comp310_w.Prelude.Update.{update}
use comp310_w.Fs.Cache.Agrees.{IsDevice}
use comp310_w.Fs.Cache.Coherent.{
  StandsFor, buffer_cache_read-StandsFor, buffer_cache_write-StandsFor,
}

-- `buffer_cache_read` and `buffer_cache_write`, and the disk that a state stands for.
pub record Sectors (S Sector : Type 0) : Type 0 where
  pub read : ℕ → S → Sector × S
  pub write : ℕ → Sector → S → S
  pub disk : S → ℕ → Sector
  pub read-disk : (x : ℕ) (s : S) → (read x s).0 ≡ disk s x
  pub disk-read : (x : ℕ) (s : S) → disk ((read x s).1) ≡ disk s
  pub disk-write : (x : ℕ) (v : Sector) (s : S) → disk (write x v s) ≡ update (disk s) x v

module _ {Device Sector : Type 0} (block_read : ℕ → Device → Sector)
    (block_write : ℕ → Sector → Device → Device) (zeros : Sector)
    (dev : IsDevice block_read block_write) where
  -- A state of the cache with the disk that it stands for.
  abbrev pub Coherent : Type 0
  Coherent =
      (s : State Device Sector) × (f : ℕ → Sector) × StandsFor block_read block_write zeros dev s f

  abbrev pub cache_sectors : Sectors Coherent Sector
  cache_sectors = record {
    read = λ x c.
        let (s, f, m) = c in
        let (s', e, m') =
          buffer_cache_read-StandsFor block_read block_write zeros dev s f m x 65 (omega arith) in
        (f x, (s', f, m'));
    write = λ x v c.
        let (s, f, m) = c in
        let (s', e, m') =
          buffer_cache_write-StandsFor block_read block_write zeros dev s f m x 65 v
            (omega arith) in
        (s', update f x v, m');
    disk = λ c. c.1;
    read-disk = λ x c. refl;
    disk-read = λ x c. refl;
    disk-write = λ x v c. refl;
  }
