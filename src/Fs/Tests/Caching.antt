-- ===== src/Fs/Tests/Caching.antt =====
-- The theorems about the block cache, on a device that is a function from sectors to numbers.
use comp310_w.Prelude.{ℕ, ◌*◌, ◌≡◌, refl, some, arith}
use comp310_w.Fs.Cache.{
  State, started, buffer_cache_init, buffer_cache_close, buffer_cache_read, buffer_cache_write,
}
use comp310_w.Prelude.Update.{update}
use comp310_w.Fs.Cache.Agrees.{IsDevice}
use comp310_w.Fs.Cache.Coherent.{
  StandsFor, buffer_cache_read-StandsFor, buffer_cache_write-StandsFor,
}
use comp310_w.Fs.Cache.Closing.{buffer_cache_init-StandsFor, buffer_cache_close-StandsFor}

abbrev Disk : Type 0
Disk = ℕ → ℕ

abbrev peek : ℕ → Disk → ℕ
peek x d = d x

abbrev poke : ℕ → ℕ → Disk → Disk
poke x v d = update d x v

poke-IsDevice : IsDevice peek poke
poke-IsDevice = record { same = λ x v d. ground arith; other = λ x y v d h. ground arith }

-- Sector n holds 2n.
abbrev doubles : Disk
doubles x = 2 * x

abbrev cold : State Disk ℕ
cold = buffer_cache_init peek poke 0 (started peek poke 0 doubles)

abbrev Stands : State Disk ℕ → Disk → Type 0
Stands s f = StandsFor peek poke 0 poke-IsDevice s f

cold-Stands : Stands cold doubles
cold-Stands =
    buffer_cache_init-StandsFor peek poke 0 poke-IsDevice (started peek poke 0 doubles) refl
      (omega arith)

buffer_cache_read-StandsFor_example :
    (s : State Disk ℕ) × (buffer_cache_read peek poke 0 65 7 cold ≡ some (14, s)) × Stands s doubles
buffer_cache_read-StandsFor_example =
    buffer_cache_read-StandsFor peek poke 0 poke-IsDevice cold doubles cold-Stands 7 65
      (omega arith)

buffer_cache_write-StandsFor_example :
    (s : State Disk ℕ) × (buffer_cache_write peek poke 0 65 7 99 cold ≡ some s)
    × Stands s (update doubles 7 99)
buffer_cache_write-StandsFor_example =
    buffer_cache_write-StandsFor peek poke 0 poke-IsDevice cold doubles cold-Stands 7 65 99
      (omega arith)

-- The cache after the write of sector 7.
written :
    (s : State Disk ℕ) × (buffer_cache_write peek poke 0 65 7 99 cold ≡ some s)
    × Stands s (update doubles 7 99)
written =
    buffer_cache_write-StandsFor peek poke 0 poke-IsDevice cold doubles cold-Stands 7 65 99
      (omega arith)

abbrev warm : State Disk ℕ
warm = written.0

buffer_cache_close-StandsFor_example :
    ((x : ℕ) → (buffer_cache_close peek poke 0 warm).device x ≡ update doubles 7 99 x)
    × Stands (buffer_cache_close peek poke 0 warm) (update doubles 7 99)
buffer_cache_close-StandsFor_example =
    buffer_cache_close-StandsFor peek poke 0 poke-IsDevice (update doubles 7 99) warm (written.2)
