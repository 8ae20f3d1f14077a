-- ===== src/Fs/Cache/Flushing.antt =====
-- The states of the cache (a3/fs/cache.c) that stand for a disk, and what writing back an entry does.
use mathlib.Core.Path.{subst}
use comp310_w.Prelude.{
  ℕ, ◌<◌, ◌≡◌, refl, sym, ◌∙◌, ap, ◌≢◌, true, false, set, length, length-set, get_or-set_self,
  get_or-set_ne, arith, Bool-cases, if_true, if_false, inl, inr,
}
use comp310_w.Fs.Cache.{Entry, State, buffer_cache_size, at, buffer_cache_flush}
use comp310_w.Fs.Cache.Agrees.{IsDevice, Agrees, keeps, Agrees-flush}

module _ {Device Sector : Type 0} (block_read : ℕ → Device → Sector)
    (block_write : ℕ → Sector → Device → Device) (zeros : Sector)
    (dev : IsDevice block_read block_write) where
  -- The state stands for a disk, and its arrays and its clock are in bounds.
  pub record Models (s : State Device Sector) (f : ℕ → Sector) : Type 0 where
    pub size : length s.cache ≡ buffer_cache_size
    pub hand : s.clock < buffer_cache_size
    pub agrees : Agrees block_read block_write (at block_read block_write zeros s) s.device f

  -- `cache[j]`, and the state with another entry at an index.
  abbrev entry : State Device Sector → ℕ → Entry Sector
  entry s j = at block_read block_write zeros s j

  -- No entry holds the sector.
  abbrev pub Miss : State Device Sector → ℕ → Type 0
  Miss s x = (j : ℕ) → (entry s j).occupied ≡ true → (entry s j).disk_sector ≢ x

  module _ (s s' : State Device Sector) (i : ℕ) (e : Entry Sector)
      (written : s'.cache ≡ set s.cache i e) where
    pub entry_self : i < length s.cache → entry s' i ≡ e
    entry_self room = rw written (get_or-set_self s.cache i e _ room)

    pub entry_ne : (j : ℕ) → j ≢ i → entry s' j ≡ entry s j
    entry_ne j ne = rw written (get_or-set_ne s.cache i j e _ (λ q. ne (sym q)))

    pub Miss-set :
        (x : ℕ)
        → Miss s x
        → i < length s.cache
        → e.occupied ≡ (entry s i).occupied
        → e.disk_sector ≡ (entry s i).disk_sector
        → Miss s' x
    Miss-set x miss room o d j oj q =
        let here = entry_self room in
        let occ =
          keeps (entry s) (entry s') i (λ (e : Entry Sector). e.occupied) entry_ne (rw here o) j in
        let sec =
          keeps (entry s) (entry s') i (λ (e : Entry Sector). e.disk_sector) entry_ne (rw here d)
            j in
        miss j (sym occ ∙ oj) (sym sec ∙ q)

  module _ (f : ℕ → Sector) where
    -- What `buffer_cache_flush` leaves at an occupied entry.
    pub record Flushed (i : ℕ) (s s' : State Device Sector) : Type 0 where
      pub models : Models s' f
      pub miss : (x : ℕ) → Miss s x → Miss s' x
      pub clock : s'.clock ≡ s.clock
      pub occupied : (entry s' i).occupied ≡ true
      pub dirty : (entry s' i).dirty ≡ false
      pub others : (j : ℕ) → j ≢ i → entry s' j ≡ entry s j

    pub buffer_cache_flush-Flushed :
        (i : ℕ) (s : State Device Sector)
        → Models s f
        → (entry s i).occupied ≡ true
        → i < buffer_cache_size
        → Flushed i s (buffer_cache_flush block_read block_write zeros i s)
    unfolding buffer_cache_flush
    buffer_cache_flush-Flushed i s r full bound = elim (Bool-cases ((entry s i).dirty)) [
      | inr clean ↦ subst (Flushed i s) (sym (if_false _ _ clean)) (record {
        models = r;
        miss = λ x h. h;
        clock = refl;
        occupied = full;
        dirty = clean;
        others = λ j _. refl;
      })
      | inl dirty ↦ subst (Flushed i s) (sym (if_true _ _ dirty)) written
    ]
      where
        e : Entry Sector
        e = record (entry s i) { dirty = false }

        room : i < length s.cache
        room = omega (arith, r.size)

        s' : State Device Sector
        s' = record s {
          cache = set s.cache i e;
          device = block_write ((entry s i).disk_sector) ((entry s i).buffer) s.device;
        }

        self : entry s' i ≡ e
        self = entry_self s s' i e refl room

        written : Flushed i s s'
        written = record {
          models = record {
            size = length-set s.cache i e ∙ r.size;
            hand = r.hand;
            agrees =
                Agrees-flush block_read block_write (entry s) (entry s') s.device f r.agrees i
                  (entry_ne s s' i e refl) dev full self;
          };
          miss = λ x h. Miss-set s s' i e refl x h room refl refl;
          clock = refl;
          occupied = ap (λ (e : Entry Sector). e.occupied) self ∙ full;
          dirty = ap (λ (e : Entry Sector). e.dirty) self;
          others = entry_ne s s' i e refl;
        }
