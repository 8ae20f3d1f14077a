-- ===== src/Fs/Cache/Closing.antt =====
-- The start and the end of the buffer cache (a3/fs/cache.c).
use native.Mathlib.Decide.{ℕ_discrete}
use comp310_w.Prelude.{
  ℕ, zero, suc, ◌+◌, ◌<◌, ◌≡◌, refl, sym, ◌∙◌, ap, if◌then◌else◌, true, false, List, [], ◌∷◌,
  get_or, length, map, arith, Bool-cases, Option-cases, if_true, if_false, inl, inr,
}
use mathlib.Core.Path.{subst}
use comp310_w.Fs.Cache.{
  Entry, State, buffer_cache_size, blank, at, free_entry, buffer_cache_init, buffer_cache_flush,
  buffer_cache_lookup, close_from, buffer_cache_close,
}
use comp310_w.Fs.Cache.Agrees.{IsDevice}
use comp310_w.Fs.Cache.Flushing.{buffer_cache_flush-Flushed}
use comp310_w.Fs.Cache.Coherent.{StandsFor, lookup-hit, lookup-Miss}

module _ {Device Sector : Type 0} (block_read : ℕ → Device → Sector)
    (block_write : ℕ → Sector → Device → Device) (zeros : Sector)
    (dev : IsDevice block_read block_write) where
  abbrev entry : State Device Sector → ℕ → Entry Sector
  entry s j = at block_read block_write zeros s j

  length-free :
      (es : List (Entry Sector))
      → length (map (free_entry block_read block_write zeros) es) ≡ length es
  length-free [] = refl
  length-free (e ∷ es) = ap suc (length-free es)

  free-empty :
      (es : List (Entry Sector)) (j : ℕ)
      → (get_or
          (map (free_entry block_read block_write zeros) es)
          j
          (blank block_read block_write zeros)).occupied
        ≡ false
  free-empty [] j = refl
  free-empty (e ∷ es) zero = refl
  free-empty (e ∷ es) (suc j) = free-empty es j

  -- After `buffer_cache_init` the cache stands for what is on the device, whatever the entries held.
  pub buffer_cache_init-StandsFor :
      (s : State Device Sector)
      → length s.cache ≡ buffer_cache_size
      → s.clock < buffer_cache_size
      → StandsFor block_read block_write zeros dev
          (buffer_cache_init block_read block_write zeros s)
          (λ x. block_read x s.device)
  unfolding buffer_cache_init
  buffer_cache_init-StandsFor s size hand = record {
    size = length-free s.cache ∙ size;
    hand = hand;
    agrees = record {
      distinct = λ i j oi. absurd (ground (arith, free-empty s.cache i));
      cached = λ i oi. absurd (ground (arith, free-empty s.cache i));
      clean = λ i oi. absurd (ground (arith, free-empty s.cache i));
      uncached = λ x out. refl;
    };
  }

  module _ (f : ℕ → Sector) where
    -- The entries below an index are up to date on the device.
    record Cleaned (i : ℕ) (s : State Device Sector) : Type 0 where
      stands : StandsFor block_read block_write zeros dev s f
      clean : (j : ℕ) → j < i → (entry s j).occupied ≡ true → (entry s j).dirty ≡ false

    close_step :
        (i : ℕ) (s : State Device Sector)
        → Cleaned i s
        → i < buffer_cache_size
        → Cleaned (i + 1) (
            if (entry s i).occupied then buffer_cache_flush block_read block_write zeros i s else s)
    close_step i s c bound = elim (Bool-cases ((entry s i).occupied)) [
      | inr empty ↦ subst (Cleaned (i + 1)) (sym (if_false _ _ empty)) (record {
        stands = c.stands;
        clean = λ j h o. elim (ℕ_discrete j i) [
          | yes e ↦ absurd (ground arith)
          | no ne ↦ c.clean j (omega arith) o
        ];
      })
      | inl full ↦
          let s' = buffer_cache_flush block_read block_write zeros i s in
          let fl =
            buffer_cache_flush-Flushed block_read block_write zeros dev f i s (c.stands) full
              bound in
          subst (Cleaned (i + 1)) (sym (if_true _ _ full)) (record {
            stands = fl.models;
            clean = λ j h o. elim (ℕ_discrete j i) [
              | yes e ↦ rw e (fl.dirty)
              | no ne ↦
                  let same = fl.others j ne in
                  ap (λ (e : Entry Sector). e.dirty) same
                  ∙ c.clean j (omega arith) (ap (λ (e : Entry Sector). e.occupied) (sym same) ∙ o)
            ];
          })
    ]

    close_from-Cleaned :
        (n i : ℕ) (s : State Device Sector)
        → i + n ≡ buffer_cache_size
        → Cleaned i s
        → Cleaned buffer_cache_size (close_from block_read block_write zeros i n s)
    unfolding close_from
    close_from-Cleaned zero i s e c = subst (λ k. Cleaned k s) (omega arith) c
    close_from-Cleaned (suc n) i s e c =
        close_from-Cleaned n (i + 1) _ (omega arith) (close_step i s c (omega arith))

    -- After `buffer_cache_close` every sector of the device itself holds what the disk has there
    -- that the cache stood for before, and the cache stands for it still.
    pub buffer_cache_close-StandsFor :
        (s : State Device Sector)
        → StandsFor block_read block_write zeros dev s f
        → ((x : ℕ) → block_read x (buffer_cache_close block_read block_write zeros s).device ≡ f x)
          × StandsFor block_read block_write zeros dev
              (buffer_cache_close block_read block_write zeros s)
              f
    unfolding buffer_cache_close
    buffer_cache_close-StandsFor s m =
        let s' = buffer_cache_close block_read block_write zeros s in
        let c : Cleaned buffer_cache_size s' =
          close_from-Cleaned buffer_cache_size 0 s refl
            (record { stands = m; clean = λ j h. absurd (omega arith) }) in
        (
          λ x. elim (Option-cases (buffer_cache_lookup block_read block_write zeros x s')) [
            | inl e ↦
                c.stands.agrees.uncached x
                  (lookup-Miss block_read block_write zeros dev s' f (c.stands) x e)
            | inr (i, e) ↦
                let (bound, full, sector) =
                  lookup-hit block_read block_write zeros dev s' f (c.stands) x i e in
                subst (λ y. block_read y s'.device ≡ f y) sector
                  (c.stands.agrees.clean i full (c.clean i bound full))
          ],
          c.stands,
        )
